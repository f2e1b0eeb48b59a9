-- ===== src/Connect/Accounts.antt =====
-- What the log of calls says of the resources.
use mytests.Base.{
  ℕ, suc, Bool, true, false, ◌&&◌, not, List, [], ◌∷◌, ◌==◌, if◌then◌else◌, ◌≡◌, arith, sym, ◌∙◌,
  Option, none, some,
}
use mytests.Connect.Calls.{
  send_region, recv_region, Resource, qp, conn, buffer, mr, Call, alloc_pd, acquire, release,
  create_comp_channel, create_cq, req_notify_cq, create_thread, post_recv, disconnect, destroy_id,
}
use mytests.Connect.Server.{is_live, forget}

-- A number for each resource.
abbrev code : Resource → ℕ
code qp = 0
code conn = 1
code (buffer send_region) = 2
code (buffer recv_region) = 3
code (mr send_region) = 4
code (mr recv_region) = 5

-- Whether a resource is held after the calls: the last call on it decides.
unfoldable pub holds : Resource → ℕ → List Call → Bool
holds r id [] = false
holds r id (acquire r' id' ∷ log) =
    let before = holds r id log in if (code r == code r') && (id == id') then true else before
holds r id (release r' id' ∷ log) =
    let before = holds r id log in if (code r == code r') && (id == id') then false else before
holds r id (_ ∷ log) = holds r id log

-- No resource is acquired while it is held, and none is released while it is not.
unfoldable pub is_sound : List Call → Bool
unfolding holds
is_sound [] = true
is_sound (acquire r id ∷ log) = not (holds r id log) && is_sound log
is_sound (release r id ∷ log) = holds r id log && is_sound log
is_sound (_ ∷ log) = is_sound log

-- How often ibv_alloc_pd was called, and rdma_disconnect.
unfoldable pub contexts : List Call → ℕ
contexts [] = 0
contexts (alloc_pd v ∷ log) = suc (contexts log)
contexts (_ ∷ log) = contexts log

unfoldable pub disconnects : List Call → ℕ
disconnects [] = 0
disconnects (disconnect id ∷ log) = suc (disconnects log)
disconnects (_ ∷ log) = disconnects log

-- The calls of a connection, the last one first.
abbrev pub opened : ℕ → List Call → List Call
opened id log =
    post_recv id
    ∷ acquire (mr recv_region) id
    ∷ acquire (mr send_region) id
    ∷ acquire (buffer recv_region) id
    ∷ acquire (buffer send_region) id
    ∷ acquire conn id
    ∷ acquire qp id
    ∷ log

pub opened-holds :
    (r : Resource) (id j : ℕ) (log : List Call) (b : Bool)
    → holds r j log ≡ b
    → holds r j (opened id log) ≡ (if j == id then true else b)
unfolding holds
opened-holds r id j log b e = ground (arith, e)

pub opened-is_sound :
    (id : ℕ) (log : List Call)
    → ((r : Resource) → holds r id log ≡ false)
    → is_sound log ≡ true
    → is_sound (opened id log) ≡ true
unfolding holds is_sound
opened-is_sound id log free ok = ground (
  arith,
  free qp,
  free conn,
  free (buffer send_region),
  free (buffer recv_region),
  free (mr send_region),
  free (mr recv_region),
  ok,
)

abbrev pub closed : ℕ → List Call → List Call
closed id log =
    destroy_id id
    ∷ release conn id
    ∷ release (buffer recv_region) id
    ∷ release (buffer send_region) id
    ∷ release (mr recv_region) id
    ∷ release (mr send_region) id
    ∷ release qp id
    ∷ log

pub closed-holds :
    (r : Resource) (id j : ℕ) (log : List Call) (b : Bool)
    → holds r j log ≡ b
    → holds r j (closed id log) ≡ (if j == id then false else b)
unfolding holds
closed-holds r id j log b e = ground (arith, e)

pub closed-is_sound :
    (id : ℕ) (log : List Call)
    → ((r : Resource) → holds r id log ≡ true)
    → is_sound log ≡ true
    → is_sound (closed id log) ≡ true
unfolding holds is_sound
closed-is_sound id log held ok = ground (
  arith,
  held qp,
  held conn,
  held (buffer send_region),
  held (buffer recv_region),
  held (mr send_region),
  held (mr recv_region),
  ok,
)

-- The calls of build_context.
unfoldable pub context_calls : ℕ → Option ℕ → List Call → List Call
context_calls verbs none log =
    create_thread
    ∷ req_notify_cq
    ∷ create_cq verbs
    ∷ create_comp_channel verbs
    ∷ alloc_pd verbs
    ∷ log
context_calls verbs (some ctx) log = log

-- The resources held are those of the live connections, and none was acquired or released twice.
pub record Held (live : List ℕ) (log : List Call) : Type 0 where
  pub held : (r : Resource) (id : ℕ) → holds r id log ≡ is_live id live
  pub sound : is_sound log ≡ true

pub opened-Held :
    (id : ℕ) (live : List ℕ) (log : List Call)
    → is_live id live ≡ false
    → Held live log
    → Held (id ∷ live) (opened id log)
unfolding is_live
opened-Held id live log fresh h = record {
  held = λ r j. opened-holds r id j log (is_live j live) (h.held r j);
  sound = opened-is_sound id log (λ r. h.held r id ∙ fresh) h.sound;
}

is_live-forget :
    (id j : ℕ) (live : List ℕ)
    → is_live j (forget id live) ≡ (if j == id then false else is_live j live)
unfolding is_live forget
is_live-forget id j [] = ground arith
is_live-forget id j (k ∷ live) = ground (arith, is_live-forget id j live)

pub closed-Held :
    (id : ℕ) (live : List ℕ) (log : List Call)
    → is_live id live ≡ true
    → Held live log
    → Held (forget id live) (closed id log)
closed-Held id live log here h = record {
  held =
      λ r j. closed-holds r id j log (is_live j live) (h.held r j) ∙ sym (is_live-forget id j live);
  sound = closed-is_sound id log (λ r. h.held r id ∙ here) h.sound;
}

pub context_calls-Held :
    (verbs : ℕ) (s_ctx : Option ℕ) (live : List ℕ) (log : List Call)
    → Held live log
    → Held live (context_calls verbs s_ctx log)
unfolding context_calls holds is_sound
context_calls-Held verbs none live log h = record { held = h.held; sound = h.sound }
context_calls-Held verbs (some ctx) live log h = h

-- A call that concerns no resource.
abbrev pub IsPlain : Call → Type 0
IsPlain (acquire r id) = ⊥
IsPlain (release r id) = ⊥
IsPlain _ = Unit

pub plain-Held :
    (c : Call) (live : List ℕ) (log : List Call) → IsPlain c → Held live log → Held live (c ∷ log)
unfolding holds is_sound
plain-Held (acquire r id) live log p h = absurd p
plain-Held (release r id) live log p h = absurd p
plain-Held _ live log p h = record { held = h.held; sound = h.sound }
