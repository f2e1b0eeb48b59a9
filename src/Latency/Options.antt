-- ===== src/Latency/Options.antt =====
-- The options of main of c2c-lat/c2c-lat.cc. `getopt_long` gives them one by one; `atoi` and `stoi` are
-- parameters.
use mytests.Base.{ℕ, zero, suc, Bool, false, not, ◌&&◌, ◌||◌, Option, none, some}
use mytests.Base.{List, [], ◌∷◌, ltb, leb, ◌==◌, if◌then◌else◌, get_or, length}
use mytests.Base.Integer.{ℤ, pos, negsuc}

-- An option with its argument.
pub data Opt : Type 0 where
  peer_cpu hugetlbfs offset : List ℕ → Opt
  help unknown : Opt

-- What the library does with a number: `stoi` of a base throws on a text that has none.
pub record Numbers : Type 0 where
  pub atoi : List ℕ → ℤ
  pub stoi : ℕ → List ℕ → Option ℤ

pub record Config : Type 0 where
  pub src : ℤ
  pub peer : ℤ
  pub at_offset : ℤ
  pub tlb1g_dir : List ℕ

-- `return` with a status, or an exception.
pub data Parsed : Type 0 where
  runs : Config → Parsed
  returns : ℕ → Parsed
  throws : Parsed

unfoldable pub is_cpu : ℕ → ℤ → Bool
is_cpu n_cpus (pos n) = ltb n n_cpus
is_cpu n_cpus (negsuc n) = false

unfoldable pub is_digit : ℕ → Bool
is_digit b = leb b'0' b && leb b b'9'

-- The argument of --offset: none when it is invalid, and `some none` when `stoi` throws.
unfoldable pub parse_offset : Numbers → List ℕ → Option (Option ℤ)
unfolding is_digit
parse_offset numbers text =
    let b0 = get_or text 0 0 in
    let b1 = get_or text 1 0 in
    if leb 2 (length text) && b0 == b'0'
    then some (numbers.stoi (if b1 == b'x' || b1 == b'X' then 16 else 8) text)
    else if leb 1 (length text) && is_digit b0
    then some (some (numbers.atoi text))
    else none

unfoldable pub read_options : Numbers → ℕ → List Opt → Config → Parsed
unfolding is_cpu parse_offset
read_options numbers n_cpus [] c = runs c
read_options numbers n_cpus (peer_cpu text ∷ opts) c =
    let rest = read_options numbers n_cpus opts (record c { peer = numbers.atoi text }) in
    if is_cpu n_cpus (numbers.atoi text) then rest else returns 1
read_options numbers n_cpus (hugetlbfs text ∷ opts) c =
    read_options numbers n_cpus opts (record c { tlb1g_dir = text })
read_options numbers n_cpus (offset text ∷ opts) c = elim (parse_offset numbers text) [
  | none ↦ returns 1
  | some number ↦ elim number [
    | none ↦ throws
    | some n ↦ read_options numbers n_cpus opts (record c { at_offset = n })
  ]
]
read_options numbers n_cpus (help ∷ opts) c = returns 0
read_options numbers n_cpus (unknown ∷ opts) c = returns 1

unfoldable pub same_integer : ℤ → ℤ → Bool
same_integer (pos n) (pos m) = n == m
same_integer (negsuc n) (negsuc m) = n == m
same_integer _ _ = false

abbrev pub defaults : Config
defaults = record { src = pos 0; peer = negsuc 0; at_offset = pos 0; tlb1g_dir = [] }

-- The tests of the source CPU, after the options.
unfoldable pub check_source : ℕ → Config → Parsed
unfolding is_cpu same_integer
check_source n_cpus c =
    if not (is_cpu n_cpus c.src)
    then returns 1
    else if same_integer c.src c.peer
    then returns 1
    else runs c

-- `arg` is the first argument that is no option, if there is one.
unfoldable pub main_options : Numbers → ℕ → List Opt → Option (List ℕ) → Parsed
unfolding read_options check_source
main_options numbers n_cpus opts arg = elim (read_options numbers n_cpus opts defaults) [
  | runs c ↦ elim arg [
    | none ↦ check_source n_cpus c
    | some text ↦ check_source n_cpus (record c { src = numbers.atoi text })
  ]
  | returns status ↦ returns status
  | throws ↦ throws
]

-- The peers that main tests, in order: that of the option, or all CPUs but the source.
unfoldable pub other_cpus : ℕ → ℕ → ℤ → List ℕ
unfolding same_integer
other_cpus zero cpu src = []
other_cpus (suc left) cpu src =
    let rest = other_cpus left (suc cpu) src in
    if same_integer (pos cpu) src then rest else cpu ∷ rest

unfoldable pub tested_peers : ℕ → Config → List ℕ
unfolding other_cpus
tested_peers n_cpus c = elim c.peer [ pos peer ↦ peer ∷ [] | negsuc _ ↦ other_cpus n_cpus 0 c.src ]
