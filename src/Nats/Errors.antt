-- ===== src/Nats/Errors.antt =====
-- errors.py of the NATS adapter, and what the producer and the consumer share: their calls of the
-- driver, the arguments of `nats.connect`, and `_ensure_stream`.
use openframe_adapters.Prelude.{
  ℕ, Bool, true, false, ◌&&◌, ◌||◌, ◌==◌, leb, Option, none, some, List, [], ◌∷◌, Text, String,
  if◌then◌else◌,
}
use mathlib.Core.List.{reverse}
use openframe_adapters.Effect.{Action, pure, raise, catch}
use openframe_adapters.Effect.Errors.{
  ErrorClass, Failure, adapter_error, outside, connection_error, query_error,
}
use openframe_adapters.Effect.Objects.{call}
use openframe_adapters.Nats.Driver.{
  Driver, NatsSettings, ConnectArgs, no_servers, connection_closed, connection_draining,
  connection_reconnecting, stale_connection, outbound_buffer_limit, bad_request, builtin_exception,
}

-- `str.isspace` of one character
abbrev pub is_space : ℕ → Bool
is_space c =
    leb 9 c && leb c 13
    || leb 28 c && leb c 32
    || c == 0x85
    || c == 0xa0
    || c == 0x1680
    || leb 0x2000 c && leb c 0x200a
    || c == 0x2028
    || c == 0x2029
    || c == 0x202f
    || c == 0x205f
    || c == 0x3000

-- `str.lstrip()` and `str.strip()`
unfoldable pub lstrip : Text → Text
lstrip [] = []
lstrip (c ∷ cs) = let rest = lstrip cs in if is_space c then rest else c ∷ cs

unfoldable pub strip : Text → Text
unfolding lstrip
strip s = reverse (lstrip (reverse (lstrip s)))

-- A character before the pieces of the rest: a comma begins a new piece.
abbrev pub add_char : ℕ → List Text → List Text
add_char c [] = []
add_char c (p ∷ ps) = if c == b',' then [] ∷ p ∷ ps else (c ∷ p) ∷ ps

-- A piece is kept if it is not empty.
abbrev pub keep_if_any : Text → List Text → List Text
keep_if_any [] ss = ss
keep_if_any (c ∷ cs) ss = (c ∷ cs) ∷ ss

-- `str.split(",")`
unfoldable pub split_commas : Text → List Text
split_commas [] = [] ∷ []
split_commas (c ∷ cs) = add_char c (split_commas cs)

-- `[s.strip() for s in … if s.strip()]`
unfoldable pub strip_all : List Text → List Text
strip_all [] = []
strip_all (s ∷ ss) = keep_if_any (strip s) (strip_all ss)

-- `NatsSettings.server_list`
unfoldable pub server_list : NatsSettings → List Text
unfolding split_commas strip_all strip
server_list settings = strip_all (split_commas settings.nats_servers)

-- `if self._settings.nats_user:` and the like
abbrev pub non_empty : Text → Bool
non_empty [] = false
non_empty (c ∷ cs) = true

unfoldable pub connect_args : NatsSettings → ConnectArgs
connect_args settings = record {
  servers = server_list settings;
  max_reconnect_attempts = settings.nats_max_reconnect_attempts;
  credentials =
      if non_empty settings.nats_user
      then some (settings.nats_user, settings.nats_password)
      else none;
  token = if non_empty settings.nats_token then some settings.nats_token else none;
}

module _ {N J B M Y S X : Type 0} (d : Driver N J B M Y S X) where
  abbrev pub catches : X → Bool
  catches x = d.isinstance x builtin_exception

  -- `isinstance(exc, _CONNECTION_ERRORS)`
  unfoldable pub is_connection_error : X → Bool
  is_connection_error exc =
      d.isinstance exc no_servers
      || d.isinstance exc connection_closed
      || d.isinstance exc connection_draining
      || d.isinstance exc connection_reconnecting
      || d.isinstance exc stale_connection
      || d.isinstance exc outbound_buffer_limit

  abbrev pub failure : NatsSettings → ErrorClass → String → Option X → Failure X
  failure settings c op cause =
      adapter_error
        (record { error_class = c; adapter = settings.adapter_name; operation = op; cause = cause })

  -- `wrap_nats`
  unfoldable pub wrap_nats : NatsSettings → X → String → Failure X
  unfolding is_connection_error
  wrap_nats settings exc op =
      if is_connection_error exc
      then failure settings connection_error op (some exc)
      else failure settings query_error op (some exc)

module _ {P N J B M Y S X : Type 0} (d : Driver N J B M Y S X) where
  -- `_ensure_stream` of the producer and of the consumer, on the context that was just obtained
  unfoldable pub ensure_stream : NatsSettings → J → Action (P × S) (Failure X) (Unit {0})
  ensure_stream settings js =
      catch (call (d.add_stream js settings.nats_stream settings.nats_subject)) (λ e. elim e [
        | outside x ↦ if d.isinstance x bad_request then pure tt else raise (outside x)
        | other ↦ raise other
      ])
