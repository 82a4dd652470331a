-- ===== src/Scanner.antt =====
-- The lines that Go's bufio.Scanner gives, which filterLines of agents/agents.go and the ingestors
-- read. It is documented to stop at a line that its buffer of 64 KiB does not hold.
use salus_telemetry_envoy.Common.{
  ◌==◌, nat_eq, string_eq, texts_eq, ◌++◌, List, [], ◌∷◌, if◌then◌else◌, leb, ℕ, length,
}

abbrev pub max_scan_token_size : ℕ
max_scan_token_size = 65536

abbrev pub drop_cr : List ℕ → List ℕ
drop_cr [] = []
drop_cr (b ∷ []) = if b == b'\r' then [] else b ∷ []
drop_cr (b ∷ c ∷ bs) = b ∷ drop_cr (c ∷ bs)

abbrev pub last_line : List ℕ → List (List ℕ)
last_line [] = []
last_line (b ∷ bs) = drop_cr (b ∷ bs) ∷ []

-- bufio.Scanner's lines; it stops at a line that does not fit its buffer.
unfoldable pub scan_lines : List ℕ → List ℕ → List (List ℕ)
scan_lines line [] = if leb max_scan_token_size (length line) then [] else last_line line
scan_lines line (b ∷ bs) =
    let ended = drop_cr line ∷ scan_lines [] bs in
    let longer = scan_lines (line ++ b ∷ []) bs in
    if leb max_scan_token_size (length line) then [] else if b == b'\n' then ended else longer
