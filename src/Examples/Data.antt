-- ===== src/Examples/Data.antt =====
-- Reading a message.
use tmail.Text.{take, drop}
use tmail.Message.Fold.{fold_header}
use tmail.Message.Tidy.{Tidy}
use tmail.Message.Pieces.{Folded, fold_header-Folded}
use tmail.Text.Utils.{unix2dos}
use tmail.Smtpd.Reader.Terminator.{EndsMessage, complete_at_dot_line}
use tmail.Text.LineEnds.{IsDos, undos, unix2dos_correct}
use tmail.Smtpd.Reader.Bounds.{complete_bounds}
use mathlib.Core.List.{reverse}
use tmail.Prelude.{
  ◌≡◌, ◌∷◌, ◌++◌, [], none, some, Option, refl, codes, Bytes, All, ◌+◌, ◌*◌, ◌≤◌, arith, length,
}
use tmail.Examples.World.{limits}
use tmail.Smtpd.Reader.{Reader, Outcome, complete, read_data, first_reader}
use tmail.Smtpd.Reader.Lines.{reader_of, kept-IsDos}
use tmail.Smtpd.Reader.Transparency.{read-send, send, text, IsPlain}
use tmail.Smtpd.Reader.Steps.{IsQuiet, scan_all}

abbrev wire : Bytes
wire = codes "a\r\n..b\r\n.\r\nQUIT"

abbrev end_of : Outcome → Option Bytes
end_of (complete q rest) = some (q.raw ++ (codes "|" ++ rest))
end_of _ = none

read_wire : end_of (read_data limits first_reader wire) ≡ some (codes "a\r\n.b\r\n\r\n|QUIT")
unfolding read_data
read_wire = refl

lone_cr :
    end_of (read_data limits first_reader (codes "a\rb\r\n.\r\n")) ≡ some (codes "a\r\nb\r\n\r\n|")
unfolding read_data
lone_cr = refl

lone_lf : end_of (read_data limits first_reader (codes "a\nb\r\n.\r\n")) ≡ none
unfolding read_data
lone_lf = refl

two_lines : All IsPlain (codes "a" ∷ codes ".b" ∷ [])
two_lines = omega arith

quiet : IsQuiet limits first_reader (send (codes "a" ∷ codes ".b" ∷ []))
unfolding scan_all send
quiet = record { few_hops = omega arith; short = omega arith; no_wrap = omega arith }

read-send_example :
    (q : Reader) × (read_data limits first_reader
        (send (codes "a" ∷ codes ".b" ∷ []) ++ codes "QUIT")
      ≡ complete q (codes "QUIT"))
    × (q.raw ≡ text (codes "a" ∷ codes ".b" ∷ []))
read-send_example = read-send limits (codes "a" ∷ codes ".b" ∷ []) (codes "QUIT") two_lines quiet

abbrev read_reader : Reader
read_reader = reader_of (read_data limits first_reader wire)

reads_wire : read_data limits first_reader wire ≡ complete read_reader (codes "QUIT")
unfolding read_data
reads_wire = refl

complete_at_dot_line_example :
    (ended : Bytes) × (wire ≡ reverse ended ++ codes "QUIT") × EndsMessage ended
complete_at_dot_line_example =
    complete_at_dot_line limits wire (codes "QUIT") read_reader reads_wire

complete_bounds_example :
    (read_reader.header.hops ≤ limits.max_hops)
    × (read_reader.data_bytes ≤ limits.max_data_bytes + 2)
    × (length read_reader.raw ≤ 2 * read_reader.data_bytes)
complete_bounds_example =
    complete_bounds limits wire (codes "QUIT") read_reader (omega arith) reads_wire

kept-IsDos_example : IsDos 0 (reader_of (read_data limits first_reader wire)).raw
kept-IsDos_example = kept-IsDos limits wire

unix2dos_correct_example :
    IsDos 0 (unix2dos (codes "a\nb"))
    × (undos (unix2dos (codes "a\nb")) ≡ undos (codes "a\nb"))
    × (unix2dos (unix2dos (codes "a\nb")) ≡ unix2dos (codes "a\nb"))
unix2dos_correct_example = unix2dos_correct (codes "a\nb")

abbrev long_header : Bytes
long_header =
    codes
      "Received: from client.example.org (no reverse [1.2.3.4]) by 9.9.9.9 (mx.org) whith SMTP; tmail 1"

folds :
    fold_header long_header
    ≡ codes
        "Received: from client.example.org (no reverse [1.2.3.4]) by 9.9.9.9 (mx.org)\r\n   whith SMTP; tmail 1"
unfolding fold_header take drop
folds = refl

fold_header-Folded_example :
    (text : Bytes) × Tidy long_header text × Folded text (fold_header long_header)
fold_header-Folded_example = fold_header-Folded long_header
