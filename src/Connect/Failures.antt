-- ===== src/Connect/Failures.antt =====
-- A call that fails ends the programs of rdma/01_basic-client-server.
use mytests.Base.{
  ℕ, not, ◌&&◌, ◌||◌, Bool, true, false, Option, none, some, List, [], ◌∷◌, ◌==◌, ◌≡◌, inl, inr,
  refl, arith, Bool-cases,
}
use mytests.Base.{◌≢◌, ap}
use mathlib.Core.Path.{subst}
use mytests.Connect.Calls.{
  send_region, recv_region, qp, conn, buffer, mr, Call, alloc_pd, acquire, release, Device, note,
  Answers, attempt, create_comp_channel, create_cq, req_notify_cq, create_thread, post_recv,
  disconnect, destroy_id, destroy_event_channel, Result, ok, died, crashed, ◌>>=◌, build_context,
  register_memory, post_receives,
}
use mytests.Connect.Server.{close_connection}

-- The calls whose result the programs test.
unfoldable pub is_tested : Call → Bool
is_tested (acquire conn id) = false
is_tested (acquire (buffer b) id) = false
is_tested (release r id) = false
is_tested (disconnect id) = false
is_tested (destroy_id id) = false
is_tested destroy_event_channel = false
is_tested _ = true

-- No tested call has failed.
unfoldable pub is_clean : Answers → List Call → Bool
unfolding is_tested
is_clean answers [] = true
is_clean answers (c ∷ log) = (not (is_tested c) || answers log c) && is_clean answers log

-- What a program that has died has called: nothing has failed, and there is a reason, or the last call has
-- failed, and no other.
pub data DiedOf (Reason : Type 0) (answers : Answers) (log : List Call) : Type 0 where
  rule : Reason → is_clean answers log ≡ true → DiedOf Reason answers log
  failure :
      (c : Call) (before : List Call)
      → log ≡ c ∷ before
      → answers before c ≡ false
      → is_clean answers before ≡ true
      → DiedOf Reason answers log

-- The reasons for which a program may die without a failure, and the ibv_contexts that it may have built.
module _ (Reason : Type 0) (IsBuilt : ℕ → Type 0) (answers : Answers) where
  -- No failure was passed over until here.
  pub record IsClean (d : Device) : Type 0 where
    pub clean : is_clean answers d.log ≡ true
    pub built : (ctx : ℕ) → d.s_ctx ≡ some ctx → IsBuilt ctx

  -- A result in which no failure was passed over.
  abbrev pub IsCareful {ℓ} : {A : Type ℓ} → (A → Device) → Result A → Type 0
  IsCareful device (ok a) = IsClean (device a)
  IsCareful device (died calls) = DiedOf Reason answers calls
  IsCareful device crashed = Unit

  pub >>=-IsCareful :
      {A B : Type 0} (f : A → Device) (g : B → Device) (r : Result A) (k : A → Result B)
      → IsCareful f r
      → ((a : A) → IsClean (f a) → IsCareful g (k a))
      → IsCareful g (r >>= k)
  >>=-IsCareful f g (ok a) k h next = next a h
  >>=-IsCareful f g (died log) k h next = h
  >>=-IsCareful f g crashed k h next = tt

  pub attempt-IsCareful :
      (c : Call) (d : Device) → IsClean d → IsCareful (λ d. d) (attempt answers c d)
  unfolding attempt note is_clean
  attempt-IsCareful c d h = elim (Bool-cases (answers d.log c)) [
    | inl e ↦ rw (e) (record { clean = ground (arith, e, h.clean); built = h.built })
    | inr e ↦ rw (e) (failure c d.log refl e h.clean)
  ]

  pub note-IsClean : (c : Call) (d : Device) → is_tested c ≡ false → IsClean d → IsClean (note c d)
  unfolding is_clean note
  note-IsClean c d e h = record { clean = ground (arith, e, h.clean); built = h.built }

  -- A tested call, and what follows when it succeeds.
  pub attempt_then :
      {B : Type 0} (g : B → Device) (c : Call) (d : Device) (k : Device → Result B)
      → IsClean d
      → ((d' : Device) → IsClean d' → IsCareful g (k d'))
      → IsCareful g (attempt answers c d >>= k)
  attempt_then g c d k h next =
      >>=-IsCareful (λ d. d) g (attempt answers c d) k (attempt-IsCareful c d h) next

  build_context-IsCareful :
      (verbs : ℕ) (s_ctx : Option ℕ) (log : List Call)
      → IsBuilt verbs
      → ((ctx : ℕ) → IsBuilt ctx → ctx ≢ verbs → Reason)
      → IsClean (record { s_ctx = s_ctx; log = log })
      → IsCareful (λ d. d) (build_context answers verbs (record { s_ctx = s_ctx; log = log }))
  unfolding build_context
  build_context-IsCareful verbs (some ctx) log builds second h = elim (Bool-cases (ctx == verbs)) [
    | inl e ↦ rw (e) h
    | inr e ↦
        let apart : ctx ≢ verbs = λ same. ground (arith, e, same) in
        rw (e) (rule (second ctx (h.built ctx refl) apart) h.clean)
  ]
  build_context-IsCareful verbs none log builds second h =
      let d : Device = record { s_ctx = some verbs; log = log } in
      let opened : IsClean d = record {
        clean = h.clean;
        built = λ ctx e. subst IsBuilt (some-injective verbs ctx e) builds;
      } in
      attempt_then (λ d. d) (alloc_pd verbs) d _ opened
        (λ d₁ h₁.
          attempt_then (λ d. d) (create_comp_channel verbs) d₁ _ h₁
            (λ d₂ h₂.
              attempt_then (λ d. d) (create_cq verbs) d₂ _ h₂
                (λ d₃ h₃.
                  attempt_then (λ d. d) req_notify_cq d₃ _ h₃
                    (λ d₄ h₄. attempt-IsCareful create_thread d₄ h₄))))
    where
      some-injective : (a b : ℕ) → some a ≡ some b → a ≡ b
      some-injective a b e = ap (λ (o : Option ℕ). elim o [ some v ↦ v | none ↦ a ]) e

  register_memory-IsCareful :
      (id : ℕ) (d : Device) → IsClean d → IsCareful (λ d. d) (register_memory answers id d)
  unfolding register_memory is_tested
  register_memory-IsCareful id d h =
      let sending = note (acquire (buffer send_region) id) d in
      let both = note (acquire (buffer recv_region) id) sending in
      let send_held = note-IsClean (acquire (buffer send_region) id) d refl h in
      attempt_then (λ d. d) (acquire (mr send_region) id) both _
        (note-IsClean (acquire (buffer recv_region) id) sending refl send_held)
        (λ d₁ h₁. attempt-IsCareful (acquire (mr recv_region) id) d₁ h₁)

  -- Both programs open a connection in the same way, up to what the last call is.
  pub opening-IsCareful :
      {B : Type 0} (g : B → Device) (verbs id : ℕ) (d : Device) (k : Device → Result B)
      → IsBuilt verbs
      → ((ctx : ℕ) → IsBuilt ctx → ctx ≢ verbs → Reason)
      → IsClean d
      → ((d' : Device) → IsClean d' → IsCareful g (k d'))
      → IsCareful g (
          build_context answers verbs d >>= λ d₁. attempt answers (acquire qp id) d₁ >>= λ d₂.
          register_memory answers id (note (acquire conn id) d₂) >>= λ d₃.
          post_receives answers id d₃ >>= k)
  unfolding post_receives is_tested
  opening-IsCareful g verbs id d k builds second h next =
      >>=-IsCareful (λ d. d) g (build_context answers verbs d) _
        (build_context-IsCareful verbs d.s_ctx d.log builds second h)
        (λ d₁ h₁. attempt_then g (acquire qp id) d₁ _ h₁ (λ d₂ h₂.
          >>=-IsCareful (λ d. d) g (register_memory answers id (note (acquire conn id) d₂)) _
            (register_memory-IsCareful id _ (note-IsClean (acquire conn id) d₂ refl h₂))
            (λ d₃ h₃. attempt_then g (post_recv id) d₃ k h₃ next)))

  pub close_connection-IsClean : (id : ℕ) (d : Device) → IsClean d → IsClean (close_connection id d)
  unfolding close_connection note is_clean is_tested
  close_connection-IsClean id d h = record { clean = h.clean; built = h.built }
