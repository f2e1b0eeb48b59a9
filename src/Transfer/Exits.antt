-- ===== src/Transfer/Exits.antt =====
-- When the event loop of common.c in rdma/03_file-transfer/rdma-file-transfer ends.
use mytests.Base.{ℕ, Bool, true, false, ◌&&◌, List, [], ◌∷◌, if◌then◌else◌, ◌≡◌, refl}
use mytests.Connect.Calls.{
  Call, resolve_route, accept, Answers, Result, ok, died, crashed, ◌>>=◌, EventType, addr_resolved,
  route_resolved, connect_request, established, disconnected, unknown, Event,
}
use mytests.Transfer.Loop.{
  Program, Callbacks, build_connection, call_back, tests, handle_event, event_loop,
}

abbrev is_end : EventType → Bool
is_end disconnected = true
is_end _ = false

-- The events up to the first end of a connection, that one included.
unfoldable pub until_disconnect : List Event → List Event
until_disconnect [] = []
until_disconnect (e ∷ events) =
    let rest = until_disconnect events in
    elim e.event [
      | disconnected ↦ e ∷ []
      | addr_resolved ↦ e ∷ rest
      | route_resolved ↦ e ∷ rest
      | connect_request ↦ e ∷ rest
      | established ↦ e ∷ rest
      | unknown ↦ e ∷ rest
    ]

-- A result whose flag, where it has one, is `b`.
data FlagIs {A : Type 0} (b : Bool) : Result (A × Bool) → Type 0 where
  ends_ok : (a : A) → FlagIs b (ok (a, b))
  ends_died : (log : List Call) → FlagIs b (died log)
  ends_crashed : FlagIs b crashed

then-FlagIs :
    {A B : Type 0} (b : Bool) (r : Result A) (k : A → Result (B × Bool))
    → ((a : A) → FlagIs b (k a))
    → FlagIs b (r >>= k)
then-FlagIs b (ok a) k h = h a
then-FlagIs b (died log) k h = ends_died log
then-FlagIs b crashed k h = ends_crashed

same_rest :
    {A B : Type 0} (b : Bool) (r : Result (A × Bool)) (k l : A × Bool → Result B)
    → FlagIs b r
    → ((a : A) → k (a, b) ≡ l (a, b))
    → (r >>= k) ≡ (r >>= l)
same_rest b _ k l (ends_ok a) h = h a
same_rest b _ k l (ends_died log) h = refl
same_rest b _ k l ends_crashed h = refl

module _ {S : Type 0} (answers : Answers) (callbacks : Callbacks S) where
  handle_event-FlagIs :
      (t : EventType) (id v : ℕ) (p : Program S)
      → FlagIs
          (is_end t)
          (handle_event answers callbacks (record { event = t; id = id; verbs = v }) p)
  unfolding handle_event
  handle_event-FlagIs addr_resolved id v p =
      then-FlagIs false
        (build_connection answers callbacks (record { event = addr_resolved; id = id; verbs = v })
          p)
        _
        (λ p₁. then-FlagIs false (call_back answers callbacks callbacks.on_pre_conn id p₁) _ (λ p₂.
          then-FlagIs false (tests answers callbacks (resolve_route id) p₂) _ (λ p₃. ends_ok p₃)))
  handle_event-FlagIs route_resolved id v p = then-FlagIs false _ _ (λ p₁. ends_ok _)
  handle_event-FlagIs connect_request id v p =
      then-FlagIs false
        (build_connection answers callbacks (record { event = connect_request; id = id; verbs = v })
          p)
        _
        (λ p₁.
          then-FlagIs false (call_back answers callbacks callbacks.on_pre_conn id p₁) _
            (λ p₂. then-FlagIs false (tests answers callbacks (accept id) p₂) _ (λ p₃. ends_ok p₃)))
  handle_event-FlagIs established id v p = then-FlagIs false _ _ (λ p₁. ends_ok _)
  handle_event-FlagIs disconnected id v p = then-FlagIs true _ _ (λ p₁. ends_ok _)
  handle_event-FlagIs unknown id v p = ends_died _

  -- The rest of the loop behind an event.
  abbrev rest_of : Bool → List Event → Program S × Bool → Result (Program S)
  rest_of exit_on_disconnect events (p, gone) =
      if gone && exit_on_disconnect
      then ok p
      else event_loop answers callbacks exit_on_disconnect events p

  -- Whatever the callbacks and the calls do, the loop that exits on a disconnect does what the loop that does
  -- not exit does on the events up to the first disconnect, that one included, and nothing on later ones.
  pub event_loop-until_disconnect :
      (events : List Event) (p : Program S)
      → event_loop answers callbacks true events p
        ≡ event_loop answers callbacks false (until_disconnect events) p
  unfolding event_loop until_disconnect
  event_loop-until_disconnect [] p = refl
  event_loop-until_disconnect (e ∷ events) p =
      by_type e.event e.id e.verbs (λ p'. event_loop-until_disconnect events p')
    where
      by_type :
          (t : EventType) (id v : ℕ)
          → ((p' : Program S)
              → event_loop answers callbacks true events p'
                ≡ event_loop answers callbacks false (until_disconnect events) p')
          → let e' : Event = record { event = t; id = id; verbs = v } in
            event_loop answers callbacks true (e' ∷ events) p
            ≡ event_loop answers callbacks false (until_disconnect (e' ∷ events)) p
      by_type addr_resolved id v ih =
          same_rest false
            (handle_event answers callbacks (record { event = addr_resolved; id = id; verbs = v })
              p)
            (rest_of true events) (rest_of false (until_disconnect events))
            (handle_event-FlagIs addr_resolved id v p) ih
      by_type route_resolved id v ih =
          same_rest false
            (handle_event answers callbacks (record { event = route_resolved; id = id; verbs = v })
              p)
            (rest_of true events) (rest_of false (until_disconnect events))
            (handle_event-FlagIs route_resolved id v p) ih
      by_type connect_request id v ih =
          same_rest false
            (handle_event answers callbacks (record { event = connect_request; id = id; verbs = v })
              p)
            (rest_of true events) (rest_of false (until_disconnect events))
            (handle_event-FlagIs connect_request id v p) ih
      by_type established id v ih =
          same_rest false
            (handle_event answers callbacks (record { event = established; id = id; verbs = v }) p)
            (rest_of true events) (rest_of false (until_disconnect events))
            (handle_event-FlagIs established id v p) ih
      by_type disconnected id v ih =
          same_rest true
            (handle_event answers callbacks (record { event = disconnected; id = id; verbs = v }) p)
            (rest_of true events) (rest_of false []) (handle_event-FlagIs disconnected id v p)
            (λ p'. refl)
      by_type unknown id v ih =
          same_rest false
            (handle_event answers callbacks (record { event = unknown; id = id; verbs = v }) p)
            (rest_of true events) (rest_of false (until_disconnect events))
            (handle_event-FlagIs unknown id v p) ih
