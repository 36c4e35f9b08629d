-- ===== src/Driver/EthAddress.antt =====
-- hal-driver/flexi-ninja-eth.c, `parse_ip_port`: the addresses of the boards in the module
-- parameter, as "ip:port;ip:port". Characters are their codes. `strtok_r`, `strchr` and `strtol`
-- are those of C.
pub mod RoundTrip
pub mod Tests
use flexi_ninja.Prelude.{ℕ, zero, suc, Bool, true, false, not, Option, none, some, List, [], ltb}
use flexi_ninja.Prelude.{leb, take, ◌+◌, ◌-◌, ◌*◌, ◌&&◌, ◌||◌, ◌∷◌, ◌++◌, ◌==◌, if◌then◌else◌}

abbrev pub semicolon : ℕ
semicolon = 59

abbrev pub colon : ℕ
colon = 58

abbrev pub is_digit : ℕ → Bool
is_digit c = leb 48 c && leb c 57

abbrev pub is_space : ℕ → Bool
is_space c = c == 32 || (leb 9 c && leb c 13)

-- A token, if it has a character.
abbrev pub token : List ℕ → List (List ℕ)
token [] = []
token (c ∷ cs) = (c ∷ cs) ∷ []

-- The tokens of `strtok_r(…, ";", …)`, after the characters `current` of the one at hand.
unfoldable pub tokens : List ℕ → List ℕ → List (List ℕ)
tokens current [] = token current
tokens current (c ∷ cs) =
    let ended = token current ++ tokens [] cs in
    let longer = tokens (current ++ (c ∷ [])) cs in if c == semicolon then ended else longer

-- `strchr(entry, ':')`: what is before the first colon and after it.
unfoldable pub cut : List ℕ → Option (List ℕ × List ℕ)
cut [] = none
cut (c ∷ cs) =
    let rest = cut cs in
    if c == colon then some ([], cs) else elim rest [ none ↦ none | some (a, b) ↦ some (c ∷ a, b) ]

-- The digits at the start, from value `n` on, and what is after them.
unfoldable pub digits : ℕ → List ℕ → ℕ × List ℕ
digits n [] = (n, [])
digits n (c ∷ cs) =
    let more = digits (n * 10 + (c - 48)) cs in if is_digit c then more else (n, c ∷ cs)

unfoldable pub skip_spaces : List ℕ → List ℕ
skip_spaces [] = []
skip_spaces (c ∷ cs) = let rest = skip_spaces cs in if is_space c then rest else c ∷ cs

-- The sign of a number, and what is after it.
unfoldable pub sign : List ℕ → Bool × List ℕ
sign [] = (false, [])
sign (c ∷ cs) = if c == 45 then (true, cs) else if c == 43 then (false, cs) else (false, c ∷ cs)

abbrev pub starts_with_digit : List ℕ → Bool
starts_with_digit [] = false
starts_with_digit (c ∷ cs) = is_digit c

-- `strtol(s, &endptr, 10)`: the sign, the value and `endptr`, which is `s` if there is no number. A
-- value past the range of long is past that of a port, so that it is not cut here.
unfoldable pub strtol : List ℕ → Bool × ℕ × List ℕ
strtol s =
    let (negative, rest) = sign (skip_spaces s) in
    let (n, end) = digits 0 rest in
    if starts_with_digit rest then (negative, n, end) else (false, 0, s)

abbrev pub is_empty : List ℕ → Bool
is_empty [] = true
is_empty (c ∷ cs) = false

-- `IpPort`, whose `ip` has room for 15 characters.
pub record IpPort : Type 0 where
  pub ip : List ℕ
  pub port : ℕ

-- The two parts of an entry.
unfoldable pub parse_parts : List ℕ → List ℕ → Option IpPort
parse_parts ip port_str =
    let (negative, n, end) = strtol port_str in
    if not (is_empty end) || (negative && not (n == 0)) || ltb 65535 n
    then none
    else some (record { ip = take 15 ip; port = n })

abbrev pub parse_cut : Option (List ℕ × List ℕ) → Option IpPort
parse_cut none = none
parse_cut (some (ip, port_str)) = parse_parts ip port_str

unfoldable pub parse_entry : List ℕ → Option IpPort
parse_entry entry = parse_cut (cut entry)

-- One entry more, if it is good and there is room.
abbrev pub keep : Option IpPort → (ℕ → List IpPort) → ℕ → List IpPort
keep none rest n = rest (suc n)
keep (some x) rest n = x ∷ rest n

-- The loop, with room for so many.
unfoldable pub parse_entries : List (List ℕ) → ℕ → List IpPort
parse_entries [] n = []
parse_entries (e ∷ es) zero = []
parse_entries (e ∷ es) (suc n) = keep (parse_entry e) (parse_entries es) n

-- `none` is -1: no input, no memory for its copy, or no room. The count is the length.
unfoldable pub parse_ip_port : Option (List ℕ) → Bool → ℕ → Option (List IpPort)
parse_ip_port none copied max_count = none
parse_ip_port (some input) copied max_count =
    if not copied || max_count == 0 then none else some (parse_entries (tokens [] input) max_count)
