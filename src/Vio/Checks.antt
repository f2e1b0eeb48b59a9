-- ===== src/Vio/Checks.antt =====
-- The commands of the client of mysql/vio-bench/ match what its server checks.
use mytests.Base.{ℕ, zero, suc, ◌≡◌, refl, ap, ◌∙◌, arith, false, inl, inr, Bool-cases}
use mytests.Base.{List, [], ◌∷◌, ◌++◌, ◌==◌, length, replicate}
use mytests.Vio.Defs.{waits, Status, success, peer_closed, error, waiting}
use mytests.Vio.Handlers.{
  c2s_size, s2c_size, Socket, read_socket, write_socket, End, read_end, write_end, Server,
  is_mismatch, check_command, print_statistics, handler,
}
use mytests.Vio.Reads.{vio_read-Reads}
use mytests.Vio.Writes.{replicate-begin}
use mytests.Vio.Serving.{print_statistics-same}

is_mismatch-replicate : (n : ℕ) → is_mismatch (replicate n b'c') ≡ false
unfolding is_mismatch
is_mismatch-replicate zero = refl
is_mismatch-replicate (suc n) = is_mismatch-replicate n

-- What follows in a buffer of one byte repeated.
replicate-end :
    (n a : ℕ) (xs ys : List ℕ) → xs ++ ys ≡ replicate n a → (m : ℕ) × (ys ≡ replicate m a)
replicate-end n a [] ys e = (n, e)
replicate-end zero a (x ∷ xs) ys e = absurd (ground (arith, e))
replicate-end (suc n) a (x ∷ xs) ys e = replicate-end n a xs ys (ground (arith, e))

turn :
    (v w1 w2 : Server) (k : End × Server) (s t : Status)
    → w1.mismatches ≡ v.mismatches
    → w2.mismatches ≡ v.mismatches
    → k.1.mismatches ≡ v.mismatches
    → let r : End × Server = elim s [
      | success ↦ elim t [ success ↦ k | e ↦ (write_end e, w2) ]
      | e ↦ (read_end e, w1)
    ] in
      r.1.mismatches ≡ v.mismatches
turn v w1 w2 k success success h1 h2 h = h
turn v w1 w2 k success peer_closed h1 h2 h = h2
turn v w1 w2 k success error h1 h2 h = h2
turn v w1 w2 k success waiting h1 h2 h = h2
turn v w1 w2 k peer_closed t h1 h2 h = h1
turn v w1 w2 k error t h1 h2 h = h1
turn v w1 w2 k waiting t h1 h2 h = h1

print_statistics-mismatches : (v : Server) → (print_statistics v).mismatches ≡ v.mismatches
unfolding print_statistics
print_statistics-mismatches v = elim (Bool-cases (v.count == 10000)) [
  | inl e ↦ rw (e) refl
  | inr e ↦ rw (e) refl
]

-- On a stream of 'c' only, the server never reports a mismatch.
pub handler-mismatches :
    (fuel n : ℕ) (v : Server)
    → v.socket.stream ≡ replicate n b'c'
    → (handler fuel v).1.mismatches ≡ v.mismatches
unfolding handler read_socket write_socket check_command
handler-mismatches zero n v e = refl
handler-mismatches (suc fuel) n v e =
    let r =
      vio_read-Reads waits v.socket.recvs v.socket.polls c2s_size v.socket.stream (omega arith) in
    let called = read_socket waits c2s_size v.socket in
    let v1 : Server = record v { socket = called.socket; count = suc v.count } in
    let (is_c, size) = replicate-begin n b'c' called.bytes called.socket.stream (r.in_order ∙ e) in
    let (m, left) = replicate-end n b'c' called.bytes called.socket.stream (r.in_order ∙ e) in
    let v2 : Server = check_command called.bytes v1 in
    let unchecked : v2 ≡ v1 =
      rw (ap is_mismatch is_c ∙ is_mismatch-replicate (length called.bytes)) refl in
    let w = write_socket waits (replicate s2c_size b's') v2.socket in
    let v3 : Server = record v2 { socket = w.socket } in
    let counted : v2.mismatches ≡ v.mismatches = ap (λ (u : Server). u.mismatches) unchecked in
    turn v v1 v3 (handler fuel (print_statistics v3)) called.status w.status refl counted (
      handler-mismatches fuel m (print_statistics v3) (
        ap (λ (s : Socket). s.stream) ((print_statistics-same v3).0)
        ∙ ap (λ (u : Server). u.socket.stream) unchecked
        ∙ left)
      ∙ print_statistics-mismatches v3
      ∙ counted)
