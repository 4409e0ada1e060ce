-- ===== src/Kafka/Committing.antt =====
-- Which offset the message loop leaves committed.
use openframe_adapters.Prelude.{
  ℕ, ◌+◌, ◌<◌, ◌≡◌, refl, ap, ◌∙◌, Bool, true, false, none, some, arith, Option, List, [], ◌∷◌,
  ◌++◌, inl, inr, if◌then◌else◌,
}
use openframe_adapters.Effect.{Outcome, ok, raised, Action, Outcome-cases}
use openframe_adapters.Effect.Errors.{Failure, outside}
use openframe_adapters.Effect.Iteration.{Arrival, delivers, breaks, taken}
use openframe_adapters.Kafka.Driver.{Driver, KafkaSettings}
use openframe_adapters.Kafka.Producer.{catches}
use openframe_adapters.Kafka.Consumer.{Consumer, ack, nack, settle, consume, close, round_failed}

module _ {P C M Y S X T : Type 0} (d : Driver P C M Y S X) (settings : KafkaSettings)
    (deserialise : Y → Outcome X T)
    (handler : T → Action (Consumer C × S) (Failure X) (Unit {0})) where
  -- Documented: handing a message over moves the position of the consumer behind it, `commit()`
  -- commits that position, and, automatic commits being off, nothing else commits. Commits and the
  -- trace context succeed, every exception is an `Exception`, and the handler neither commits nor
  -- touches the consumer: it returns for the messages that it accepts and raises `fault` for others.
  pub record Tracks (position committed : S → ℕ) (offset : M → ℕ) (accepts : T → Bool)
      (fault : T → X) : Type 0 where
    pub hand_over_moves : (m : M) (s : S) → position (d.hand_over m s) ≡ offset m + 1
    pub hand_over_keeps : (m : M) (s : S) → committed (d.hand_over m s) ≡ committed s
    pub commit_returns : (c : C) (s : S) → (d.commit c s).0 ≡ ok tt
    pub commit_commits : (c : C) (s : S) → committed (d.commit c s).1 ≡ position s
    pub stop_keeps : (c : C) (s : S) → committed (d.stop_consumer c s).1 ≡ committed s
    pub attach_returns : (m : M) (s : S) → (d.attach m s).0 ≡ ok tt
    pub attach_position : (m : M) (s : S) → position (d.attach m s).1 ≡ position s
    pub attach_keeps : (m : M) (s : S) → committed (d.attach m s).1 ≡ committed s
    pub detach_returns : (s : S) → (d.detach s).0 ≡ ok tt
    pub detach_position : (s : S) → position (d.detach s).1 ≡ position s
    pub detach_keeps : (s : S) → committed (d.detach s).1 ≡ committed s
    pub handler_outcome :
        (t : T) (w : Consumer C × S)
        → (handler t w).0 ≡ (if accepts t then ok tt else raised (outside (fault t)))
    pub handler_position : (t : T) (w : Consumer C × S) → position (handler t w).1.1 ≡ position w.1
    pub handler_keeps : (t : T) (w : Consumer C × S) → committed (handler t w).1.1 ≡ committed w.1
    pub handler_consumer : (t : T) (w : Consumer C × S) → (handler t w).1.0 ≡ w.0
    pub all_exceptions : (x : X) → catches d x ≡ true

  -- A message that deserialises and that the handler accepts.
  abbrev pub succeeds : (T → Bool) → M → Bool
  succeeds accepts m = elim (deserialise (d.payload m)) [ ok t ↦ accepts t | raised x ↦ false ]

  -- The offset that is committed after these messages, `n` being committed before them.
  abbrev pub committed_by : (M → ℕ) → (T → Bool) → ℕ → List M → ℕ
  committed_by offset accepts n [] = n
  committed_by offset accepts n (m ∷ ms) =
      committed_by offset accepts (if succeeds accepts m then offset m + 1 else n) ms

  -- The variable `message` is bound, or the first message deserialises and will bind it.
  abbrev pub Binds : Option T → List M → Type 0
  Binds (some t) ms = Unit {0}
  Binds none [] = Unit {0}
  Binds none (m ∷ ms) = (t : T) × (deserialise (d.payload m) ≡ ok t)

  module _ {position committed : S → ℕ} {offset : M → ℕ} {accepts : T → Bool} {fault : T → X}
      (tracks : Tracks position committed offset accepts fault) where
    -- A round whose message is `t`.
    round_commits :
        (t : T) (m : M) (w : Consumer C × S) {c : C}
        → w.0.consumer ≡ some c
        → deserialise (d.payload m) ≡ ok t
        → (bound : Option T)
        → let (r, u) = settle d settings deserialise handler bound m w in
          (r ≡ ok (some t))
          × (committed u.1 ≡ (if accepts t then position w.1 else committed w.1))
          × (u.0 ≡ w.0)
    unfolding settle ack round_failed nack
    round_commits t m w {c} held decoded bound =
        let v : Consumer C × S = (w.0, (d.attach m w.1).1) in
        let u = (handler t v).1 in
        let s = (d.detach u.1).1 in
        ground (
          arith,
          tracks.attach_returns m w.1,
          tracks.attach_position m w.1,
          tracks.attach_keeps m w.1,
          tracks.handler_outcome t v,
          tracks.handler_position t v,
          tracks.handler_keeps t v,
          tracks.handler_consumer t v,
          tracks.detach_returns u.1,
          tracks.detach_position u.1,
          tracks.detach_keeps u.1,
          tracks.commit_returns c s,
          tracks.commit_commits c s,
          tracks.all_exceptions (fault t),
        )

    -- A round whose message does not deserialise, once the variable `message` is bound.
    malformed_keeps :
        (t : T) (x : X) (m : M) (w : Consumer C × S)
        → deserialise (d.payload m) ≡ raised x
        → settle d settings deserialise handler (some t) m w ≡ (ok (some t), w)
    unfolding settle round_failed nack
    malformed_keeps t x m w p = ground (arith, tracks.all_exceptions x)

    settle_commits :
        (bound : Option T) (m : M) (ms : List M) (w : Consumer C × S) {c : C}
        → w.0.consumer ≡ some c
        → Binds bound (m ∷ ms)
        → let (r, u) = settle d settings deserialise handler bound m w in
          ((t : T) × (r ≡ ok (some t)))
          × (committed u.1 ≡ (if succeeds accepts m then position w.1 else committed w.1))
          × (u.0 ≡ w.0)
    settle_commits none m ms w held (t, p) =
        let (x, y, z) = round_commits t m w held p none in ((t, x), ground (arith, y, p), z)
    settle_commits (some t) m ms w held binds = elim (Outcome-cases (deserialise (d.payload m))) [
      | inl (t', p) ↦
          let (x, y, z) = round_commits t' m w held p (some t) in ((t', x), ground (arith, y, p), z)
      | inr (x, p) ↦
          let e = malformed_keeps t x m w p in
          ((t, ground (arith, e)), ground (arith, e, p), ground (arith, e))
    ]

    close_commits :
        (w : Consumer C × S)
        → let (r, u) = close d settings w in
          (r ≡ ok tt) × (committed u.1 ≡ committed w.1) × (u.0.running ≡ false)
    unfolding close
    close_commits w = grind (arith, tracks.stop_keeps, tracks.all_exceptions)

    -- On a running consumer, where handing over a message moves the position behind it, `commit`
    -- succeeds and commits the position and nothing else commits, the trace context raises
    -- nothing, the handler touches neither the consumer nor the offsets, every exception is an
    -- `Exception` and the first message deserialises: the offset that the message loop leaves
    -- committed is that behind the last message that deserialised and whose handler returned, of
    -- those that arrive before another task calls `close` or the iterator breaks off; without such
    -- a message it is the one from before.
    pub consume_commits :
        (bound : Option T) (arrivals : List (Arrival M X)) (w : Consumer C × S) {c : C}
        → w.0.consumer ≡ some c
        → w.0.running ≡ true
        → Binds bound (taken arrivals)
        → committed (consume d settings deserialise handler bound arrivals w).1.1
          ≡ committed_by offset accepts (committed w.1) (taken arrivals)
    unfolding consume
    consume_commits bound [] w held on b = refl
    consume_commits bound (breaks true x ∷ rest) w held on b = ground (arith, close_commits w)
    consume_commits bound (breaks false x ∷ rest) w held on b = refl
    consume_commits bound (delivers true m ∷ rest) w held on b =
        let u = (close d settings w).1 in
        ground (arith, close_commits w, tracks.hand_over_keeps m u.1)
    consume_commits bound (delivers false m ∷ rest) w held on b =
        let v : Consumer C × S = (w.0, d.hand_over m w.1) in
        let u = (settle d settings deserialise handler bound m v).1 in
        let ((t, x), y, z) = settle_commits bound m (taken rest) v held b in
        ground (
          arith,
          on,
          x,
          y,
          tracks.hand_over_moves m w.1,
          tracks.hand_over_keeps m w.1,
          consume_commits (some t) rest u (ap (λ k. k.consumer) z ∙ held)
              (ap (λ k. k.running) z ∙ on) tt,
        )

    committed_by-append :
        (n : ℕ) (xs ys : List M)
        → committed_by offset accepts n (xs ++ ys)
          ≡ committed_by offset accepts (committed_by offset accepts n xs) ys
    committed_by-append n [] ys = refl
    committed_by-append n (x ∷ xs) ys =
        committed_by-append (if succeeds accepts x then offset x + 1 else n) xs ys

    -- Under the same conditions as for the committed offset: where a message does not deserialise
    -- or its handler raises, and the last message to be taken, of a greater offset, succeeds, the
    -- offset committed at the end is beyond the message that failed.
    pub later_commit_skips :
        (arrivals : List (Arrival M X)) (w : Consumer C × S) (xs ys : List M) (m n : M) {c : C}
        → w.0.consumer ≡ some c
        → w.0.running ≡ true
        → Binds none (taken arrivals)
        → taken arrivals ≡ xs ++ ((m ∷ ys) ++ (n ∷ []))
        → succeeds accepts m ≡ false
        → succeeds accepts n ≡ true
        → offset m < offset n
        → offset m < committed (consume d settings deserialise handler none arrivals w).1.1
    later_commit_skips arrivals w xs ys m n held on b taken_all failed accepted before = ground (
      arith,
      consume_commits none arrivals w held on b,
      committed_by-append (committed w.1) xs ((m ∷ ys) ++ (n ∷ [])),
      committed_by-append (committed_by offset accepts (committed w.1) xs) (m ∷ ys) (n ∷ []),
    )
