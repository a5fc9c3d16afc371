-- ===== src/Python/Texts.antt =====
-- `str.split`, `startswith`, the removal of a part, and `str.encode('utf-8')`.
use mock_amqp_server.Prelude.{
  ℕ, zero, suc, ◌+◌, ◌-◌, ◌/◌, ◌%◌, Bool, true, false, ◌&&◌, List, [], ◌∷◌, ◌++◌, length, ltb, leb,
  nat_eq, if◌then◌else◌,
}
use mock_amqp_server.Python.Actions.{Str, Bytes, Result, ok, err, value_error, index_error}
use mock_amqp_server.Python.Results.{◌>>=◌}

-- puts `c` in front of the first part
abbrev extend : ℕ → List Str → List Str
extend c [] = (c ∷ []) ∷ []
extend c (part ∷ parts) = (c ∷ part) ∷ parts

-- `s.split(chr(sep), maxsplit)`
unfoldable pub split : ℕ → ℕ → Str → List Str
split sep maxsplit [] = [] ∷ []
split sep zero (c ∷ s) = (c ∷ s) ∷ []
split sep (suc left) (c ∷ s) = elim (nat_eq c sep) [
  | true ↦ [] ∷ split sep left s
  | false ↦ extend c (split sep (suc left) s)
]

-- `s.startswith(prefix)`
unfoldable pub starts_with : Str → Str → Bool
starts_with [] s = true
starts_with (c ∷ prefix) [] = false
starts_with (c ∷ prefix) (d ∷ s) = nat_eq c d && starts_with prefix s

-- `s.replace(part, '')` behind `skip` characters that belong to an occurrence; `part` is not empty
unfoldable pub delete_from : ℕ → Str → Str → Str
unfolding starts_with
delete_from skip part [] = []
delete_from (suc skip) part (c ∷ s) = delete_from skip part s
delete_from zero part (c ∷ s) = elim (starts_with part (c ∷ s)) [
  | true ↦ delete_from (length part - 1) part s
  | false ↦ c ∷ delete_from zero part s
]

unfoldable pub delete : Str → Str → Str
unfolding delete_from
delete part s = delete_from 0 part s

-- `parts[i]`
abbrev pub item_at : ℕ → List Str → Result Str
item_at i [] = err index_error
item_at zero (part ∷ parts) = ok part
item_at (suc i) (part ∷ parts) = item_at i parts

-- the UTF-8 form of a code point; a surrogate has none
unfoldable pub utf8_point : ℕ → Result Bytes
utf8_point c =
    if ltb c 0x80
    then ok (c ∷ [])
    else if ltb c 0x800
    then ok ((0xc0 + c / 64) ∷ (0x80 + c % 64) ∷ [])
    else if leb 0xd800 c && leb c 0xdfff
    then err value_error
    else if ltb c 0x10000
    then ok ((0xe0 + c / 4096) ∷ (0x80 + c / 64 % 64) ∷ (0x80 + c % 64) ∷ [])
    else ok
        ((0xf0 + c / 262144) ∷ (0x80 + c / 4096 % 64) ∷ (0x80 + c / 64 % 64) ∷ (0x80 + c % 64) ∷ [])

-- `s.encode('utf-8')`; UnicodeEncodeError is a ValueError
unfoldable pub encode : Str → Result Bytes
unfolding utf8_point
encode [] = ok []
encode (c ∷ s) = do b ← utf8_point c; rest ← encode s; ok (b ++ rest)
