-- ===== src/Lifecycle/Queue.antt =====
-- plugin.py of the queue adapters, which differ in the classes alone: a plugin holds a producer that
-- `initialize` makes and starts and `shutdown` closes, and makes consumers on demand.
use openframe_adapters.Prelude.{arith, Bool, false, not, List, if◌then◌else◌, ◌≡◌}
use openframe_adapters.Effect.{Outcome, ok, raised, Action, ◌>>◌, pure, modify}
use openframe_adapters.Effect.Errors.{Failure, type_error, PluginHealth, literal, ready}
use openframe_adapters.Lifecycle.Defs.{
  Slot, fresh, on_world, hold, initialize_with, shutdown_with, health_with, get_held,
}
use openframe_adapters.Lifecycle.Laws.{Call, Holds, run, is_up, returned, returned-get_held}

-- `__init__`, given whether the two classes are subclasses of the adapter's producer and consumer.
unfoldable pub new_plugin : {R X : Type 0} → Bool → Bool → Outcome (Failure X) (Slot R)
new_plugin is_producer is_consumer =
    if not is_producer
    then raised type_error
    else if not is_consumer
    then raised type_error
    else ok fresh

-- What the plugin uses of the adapter: a producer object `P` over the world, as it is when it was
-- made, its `start` and `close` for settings `R`, and what `except Exception` catches.
pub record ProducerClass (P R S X : Type 0) : Type 0 where
  pub made : P
  pub start : R → Action (P × S) (Failure X) (Unit {0})
  pub close : R → Action (P × S) (Failure X) (Unit {0})
  pub catches : X → Bool

module _ {P R S X : Type 0} (producers : ProducerClass P R S X) where
  abbrev pub Session : Type 0
  Session = Slot R × (P × S)

  module _ (settings : R) where
    -- The body of the `try` in `initialize`: a new producer is held, then started.
    unfoldable pub connect : Action Session (Failure X) (Unit {0})
    connect = do
      on_world (modify (λ w. (producers.made, w.1)))
      hold settings
      on_world (producers.start settings)

    unfoldable pub initialize : Action Session (Failure X) (Unit {0})
    unfolding connect
    initialize = initialize_with producers.catches connect

  unfoldable pub shutdown : Action Session (Failure X) (Unit {0})
  shutdown = shutdown_with producers.catches producers.close

  -- The producer is not asked: a READY plugin with a producer is healthy.
  abbrev pub healthy : R → Action (P × S) (Failure X) (PluginHealth X)
  healthy settings = pure (record { status = ready; message = literal "" })

  unfoldable pub health : Action Session (Failure X) (PluginHealth X)
  health = health_with producers.catches healthy

unfoldable pub get_producer : {R X : Type 0} → Slot R → Outcome (Failure X) R
get_producer = get_held

module _ {P R S X : Type 0} (producers : ProducerClass P R S X) (settings : R) where
  connect-Holds : Holds {W = P × S} (connect producers settings)
  unfolding connect
  connect-Holds = record { holds = λ s s' h. (settings, ground arith); keeps = λ s. ground arith }

  -- Calls of `initialize`, `shutdown` and `health`, whatever each returns or raises.
  unfoldable pub calls : List Call → Session producers → Session producers
  calls = run producers.catches (connect producers settings) producers.close (healthy producers)

  -- Whether the last `initialize` or `shutdown` was an `initialize` that returned.
  unfoldable pub up_after : List Call → Session producers → Bool
  up_after cs s =
      is_up producers.catches (connect producers settings) producers.close (healthy producers) cs
        false s

  -- From a new plugin of a queue adapter, after any calls of `initialize`, `shutdown` and
  -- `health`, `get_producer` returns exactly if the last `initialize` or `shutdown` was an
  -- `initialize` that returned.
  pub returned-get_producer :
      (cs : List Call) (w : P × S)
      → returned (get_producer {X = X} (calls cs (fresh, w)).0) ≡ up_after cs (fresh, w)
  unfolding get_producer calls up_after
  returned-get_producer cs w =
      returned-get_held producers.catches (connect producers settings) producers.close
        (healthy producers) connect-Holds cs (fresh, w) (λ p. absurd (cc))
