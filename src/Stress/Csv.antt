-- ===== src/Stress/Csv.antt =====
-- ChattingServer_v1.0/StressServer/CsvParser.cpp: the names and the texts, one on each line of a file.
pub mod Lines
use tcp_socket_chatting_serv.Base.{
  ℕ, Bool, true, false, ◌&&◌, ◌||◌, List, [], ◌∷◌, ◌++◌, Option, none, some, ◌==◌, if◌then◌else◌,
}

-- `'\n'` and `'\r'`.
abbrev pub lf : ℕ
lf = 10

abbrev pub cr : ℕ
cr = 13

-- `c == '\r' || c == '\n'`.
unfoldable pub ends_line : ℕ → Bool
ends_line c = (c == cr) || (c == lf)

-- The loop of `readCsv`. `ended` tells that the character before ended a line: a line feed is then
-- taken with it. `ss` is what the line has so far; a line that nothing ends is lost.
unfoldable pub read_from : Bool → List ℕ → List ℕ → List (List ℕ)
unfolding ends_line
read_from ended ss [] = []
read_from ended ss (c ∷ rest) =
    let swallowed = ended && (c == lf) in
    let ends = ends_line c in
    let items =
      read_from (if swallowed then false else ends)
        (if swallowed then ss else if ends then [] else ss ++ c ∷ []) rest in
    if swallowed then items else if ends then ss ∷ items else items

unfoldable pub read_csv : List ℕ → List (List ℕ)
read_csv text = read_from false [] text

-- `parseCsv`, where a file that cannot be read is none: what `strs` becomes, and the result.
unfoldable pub parse_csv : List (List ℕ) → Option (List ℕ) → List (List ℕ) × Bool
unfolding read_csv
parse_csv strs none = (strs, false)
parse_csv strs (some text) = (read_csv text, true)
