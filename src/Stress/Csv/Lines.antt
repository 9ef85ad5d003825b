-- ===== src/Stress/Csv/Lines.antt =====
-- `readCsv` of ChattingServer_v1.0/StressServer/CsvParser.cpp on files whose lines end in any way.
use tcp_socket_chatting_serv.Base.{
  ℕ, ◌≡◌, ◌≢◌, refl, sym, ap, ◌∙◌, Bool, true, false, List, [], ◌∷◌, ◌++◌, append-nil, append_assoc,
  map, All, ◌==◌, arith,
}
use tcp_socket_chatting_serv.Stress.Csv.{lf, cr, ends_line, read_from, read_csv}

-- How a line ends.
pub data Ending : Type 0 where
  by_cr by_lf by_both : Ending

abbrev pub ending : Ending → List ℕ
ending by_cr = cr ∷ []
ending by_lf = lf ∷ []
ending by_both = cr ∷ lf ∷ []

-- A file of lines.
unfoldable pub text_of : List (List ℕ × Ending) → List ℕ
text_of [] = []
text_of ((line, e) ∷ lines) = line ++ (ending e ++ text_of lines)

-- No character of the text ends a line.
abbrev pub IsPlain : List ℕ → Type 0
IsPlain text = All (λ c. ends_line c ≡ false) text

-- A line of one character at least.
abbrev pub IsLine : List ℕ × Ending → Type 0
IsLine (line, e) = (line ≢ []) × IsPlain line

read_from-plain :
    (ss text rest : List ℕ)
    → IsPlain text
    → read_from false ss (text ++ rest) ≡ read_from false (ss ++ text) rest
unfolding read_from
read_from-plain ss [] rest plain = ap (λ l. read_from false l rest) (sym (append-nil ss))
read_from-plain ss (c ∷ text) rest (this, plain) = rw this (
    read_from-plain (ss ++ c ∷ []) text rest plain
    ∙ ap (λ l. read_from false l rest) (append_assoc ss (c ∷ []) text))

not_lf : (c : ℕ) → ends_line c ≡ false → (c == lf) ≡ false
unfolding ends_line
not_lf c plain = ground arith

not_cr : (c : ℕ) → ends_line c ≡ false → (c == cr) ≡ false
unfolding ends_line
not_cr c plain = ground arith

read_from-start :
    (ended : Bool) (c : ℕ) (text rest : List ℕ)
    → IsPlain (c ∷ text)
    → read_from ended [] ((c ∷ text) ++ rest) ≡ read_from false (c ∷ text) rest
unfolding read_from
read_from-start false c text rest plain = read_from-plain [] (c ∷ text) rest plain
read_from-start true c text rest (this, plain) =
    rw (not_lf c this, not_cr c this) (read_from-plain (c ∷ []) text rest plain)

-- Whether a line feed is still to be swallowed.
after : Ending → Bool
after by_both = false
after e = true

read_from-ending :
    (ss : List ℕ) (e : Ending) (rest : List ℕ)
    → read_from false ss (ending e ++ rest) ≡ ss ∷ read_from (after e) [] rest
unfolding read_from ends_line after
read_from-ending ss by_cr rest = refl
read_from-ending ss by_lf rest = refl
read_from-ending ss by_both rest = refl

read_from-unended : (ended : Bool) (text : List ℕ) → IsPlain text → read_from ended [] text ≡ []
unfolding read_from
read_from-unended ended [] plain = refl
read_from-unended ended (c ∷ text) plain =
    ap (read_from ended []) (sym (append-nil (c ∷ text))) ∙ read_from-start ended c text [] plain

read_from-lines :
    (ended : Bool) (lines : List (List ℕ × Ending)) (rest : List ℕ)
    → All IsLine lines
    → IsPlain rest
    → read_from ended [] (text_of lines ++ rest) ≡ map (λ l. l.0) lines
unfolding text_of
read_from-lines ended [] rest good plain = read_from-unended ended rest plain
read_from-lines ended (([], e) ∷ lines) rest ((some_, this), good) plain = absurd (some_ refl)
read_from-lines ended ((c ∷ line, e) ∷ lines) rest ((some_, this), good) plain =
    ap (read_from ended []) (
      append_assoc (c ∷ line) (ending e ++ text_of lines) rest
      ∙ ap (◌++◌ (c ∷ line)) (append_assoc (ending e) (text_of lines) rest))
    ∙ read_from-start ended c line (ending e ++ (text_of lines ++ rest)) this
    ∙ read_from-ending (c ∷ line) e (text_of lines ++ rest)
    ∙ ap (◌∷◌ (c ∷ line)) (read_from-lines (after e) lines rest good plain)

-- In the load generator of version 1.0: a file of lines that are not empty, each of which ends in
-- a carriage return, in a line feed or in both, is read as these lines, and what stands behind the
-- last ending is lost.
pub read_csv-text_of :
    (lines : List (List ℕ × Ending)) (rest : List ℕ)
    → All IsLine lines
    → IsPlain rest
    → read_csv (text_of lines ++ rest) ≡ map (λ l. l.0) lines
unfolding read_csv
read_csv-text_of lines rest good plain = read_from-lines false lines rest good plain
