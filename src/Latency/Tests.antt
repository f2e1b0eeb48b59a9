-- ===== src/Latency/Tests.antt =====
-- What main of c2c-lat/c2c-lat.cc tests, whatever its options.
use mytests.Base.{
  ℕ, zero, suc, ◌+◌, ◌≤◌, ◌<◌, ◌≡◌, refl, arith, true, false, Option, none, some, inl, inr,
}
use mytests.Base.{List, [], ◌∷◌, Bool-cases, All}
use mytests.Base.Integer.{ℤ, pos, negsuc}
use mytests.Latency.Options.{
  Opt, peer_cpu, hugetlbfs, offset, help, unknown, Numbers, Config, Parsed, runs, returns, throws,
  is_cpu, parse_offset, read_options, same_integer, defaults, check_source, main_options,
  other_cpus, tested_peers,
}

-- A peer that the options may leave: -1, or a CPU.
abbrev IsPeer : ℕ → ℤ → Type 0
IsPeer n_cpus (pos n) = n < n_cpus
IsPeer n_cpus (negsuc n) = Unit

abbrev IsRead : ℕ → Parsed → Type 0
IsRead n_cpus (runs c) = IsPeer n_cpus c.peer
IsRead n_cpus (returns status) = status ≤ 1
IsRead n_cpus throws = Unit

is_cpu-Peer : (n_cpus : ℕ) (n : ℤ) → is_cpu n_cpus n ≡ true → IsPeer n_cpus n
unfolding is_cpu
is_cpu-Peer n_cpus (pos n) e = ground (arith, e)
is_cpu-Peer n_cpus (negsuc n) e = tt

read_options-IsRead :
    (numbers : Numbers) (n_cpus : ℕ) (opts : List Opt) (c : Config)
    → IsPeer n_cpus c.peer
    → IsRead n_cpus (read_options numbers n_cpus opts c)
unfolding read_options
read_options-IsRead numbers n_cpus [] c h = h
read_options-IsRead numbers n_cpus (peer_cpu text ∷ opts) c h =
    elim (Bool-cases (is_cpu n_cpus (numbers.atoi text))) [
      | inl e ↦
          rw (e, read_options)
            (read_options-IsRead numbers n_cpus opts (record c { peer = numbers.atoi text })
              (is_cpu-Peer n_cpus (numbers.atoi text) e))
      | inr e ↦ rw (e, read_options) (omega arith)
    ]
read_options-IsRead numbers n_cpus (hugetlbfs text ∷ opts) c h =
    read_options-IsRead numbers n_cpus opts (record c { tlb1g_dir = text }) h
read_options-IsRead numbers n_cpus (offset text ∷ opts) c h =
    go (parse_offset numbers text)
      (λ n. read_options-IsRead numbers n_cpus opts (record c { at_offset = n }) h)
  where
    go :
        (number : Option (Option ℤ))
        → ((n : ℤ) → IsRead n_cpus (read_options numbers n_cpus opts (record c { at_offset = n })))
        → IsRead n_cpus (elim number [
          | none ↦ returns 1
          | some parsed ↦ elim parsed [
            | none ↦ throws
            | some n ↦ read_options numbers n_cpus opts (record c { at_offset = n })
          ]
        ])
    go none ih = omega arith
    go (some none) ih = tt
    go (some (some n)) ih = ih n
read_options-IsRead numbers n_cpus (help ∷ opts) c h = omega arith
read_options-IsRead numbers n_cpus (unknown ∷ opts) c h = omega arith

-- A CPU that is not the source.
abbrev pub IsOther : ℕ → ℤ → ℕ → Type 0
IsOther n_cpus src cpu = (cpu < n_cpus) × (same_integer (pos cpu) src ≡ false)

other_cpus-All :
    (left cpu n_cpus : ℕ) (src : ℤ)
    → cpu + left ≤ n_cpus
    → All (IsOther n_cpus src) (other_cpus left cpu src)
unfolding other_cpus
other_cpus-All zero cpu n_cpus src h = tt
other_cpus-All (suc left) cpu n_cpus src h = elim (Bool-cases (same_integer (pos cpu) src)) [
  | inl e ↦ rw (e, other_cpus) (other_cpus-All left (suc cpu) n_cpus src (omega (arith, h)))
  | inr e ↦
      rw (e, other_cpus)
        ((omega (arith, h), e), other_cpus-All left (suc cpu) n_cpus src (omega (arith, h)))
]

-- What is run tests the source against other CPUs only, which exist, as the source does.
abbrev pub IsTest : ℕ → Parsed → Type 0
IsTest n_cpus (runs c) =
    (is_cpu n_cpus c.src ≡ true) × All (IsOther n_cpus c.src) (tested_peers n_cpus c)
IsTest n_cpus (returns status) = status ≤ 1
IsTest n_cpus throws = Unit

peers-All :
    (n_cpus : ℕ) (c : Config) (peer : ℤ)
    → IsPeer n_cpus peer
    → same_integer c.src peer ≡ false
    → All (IsOther n_cpus c.src) (tested_peers n_cpus (record c { peer = peer }))
unfolding tested_peers
peers-All n_cpus c (pos peer) h e = ((h, swap peer c.src e), tt)
  where
    swap :
        (peer : ℕ) (src : ℤ)
        → same_integer src (pos peer) ≡ false
        → same_integer (pos peer) src ≡ false
    swap peer (pos n) e = ground (arith, e)
    swap peer (negsuc n) e = refl
peers-All n_cpus c (negsuc n) h e = other_cpus-All n_cpus 0 n_cpus c.src (omega arith)

check_source-IsTest :
    (n_cpus : ℕ) (c : Config) → IsPeer n_cpus c.peer → IsTest n_cpus (check_source n_cpus c)
unfolding check_source
check_source-IsTest n_cpus c h = elim (Bool-cases (is_cpu n_cpus c.src)) [
  | inr e ↦ rw (e) (omega arith)
  | inl e ↦ elim (Bool-cases (same_integer c.src c.peer)) [
    | inl f ↦ rw (e, f) (omega arith)
    | inr f ↦ rw (e, f) (e, peers-All n_cpus c c.peer h f)
  ]
]

-- Whatever the options, and whatever the library makes of the numbers in them, main either ends at once, or
-- tests a source CPU that exists against CPUs that exist and are not the source.
pub main_options-IsTest :
    (numbers : Numbers) (n_cpus : ℕ) (opts : List Opt) (arg : Option (List ℕ))
    → IsTest n_cpus (main_options numbers n_cpus opts arg)
unfolding main_options
main_options-IsTest numbers n_cpus opts arg =
    go (read_options numbers n_cpus opts defaults) arg
      (read_options-IsRead numbers n_cpus opts defaults tt)
  where
    go :
        (r : Parsed) (arg : Option (List ℕ))
        → IsRead n_cpus r
        → IsTest n_cpus (elim r [
          | runs c ↦ elim arg [
            | none ↦ check_source n_cpus c
            | some text ↦ check_source n_cpus (record c { src = numbers.atoi text })
          ]
          | returns status ↦ returns status
          | throws ↦ throws
        ])
    go (runs c) none h = check_source-IsTest n_cpus c h
    go (runs c) (some text) h = check_source-IsTest n_cpus (record c { src = numbers.atoi text }) h
    go (returns status) arg h = h
    go throws arg h = tt
