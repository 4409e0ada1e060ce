-- ===== src/Mysql/Writes.antt =====
-- `create`, `update` and `delete`: what is committed when they return, and when they raise.
use openframe_adapters.Prelude.{String, ◌≡◌, refl, sym, ◌∙◌, ◌⊎◌, inl, inr, List, Text, arith}
use openframe_adapters.Effect.{Outcome, ok, raised, Action, ◌>>=◌, bind-step, ran-cases}
use openframe_adapters.Effect.Errors.{
  Failure, adapter_error, runtime_error, type_error, unbound_local_error, attribute_error, outside,
}
use openframe_adapters.Effect.Objects.{translate}
use openframe_adapters.Mysql.Driver.{Driver, MysqlSettings}
use openframe_adapters.Mysql.Connection.{World, get_mysql_pool}
use openframe_adapters.Mysql.Errors.{statement_error}
use openframe_adapters.Mysql.Cursors.{writing}
use openframe_adapters.Mysql.Repository.{
  Repo, row_of, insert_statements, update_statements, delete_statement,
}
use openframe_adapters.Mysql.Committing.{
  Transactional, Commits, InDoubt, Keeps, Ended, writing_ends,
}

pub bind_fails :
    {W E A B : Type 0} (m : Action W E A) (f : A → Action W E B) (w : W) {e : E} {u : W}
    → m w ≡ (raised e, u)
    → (m >>= f) w ≡ (raised e, u)
bind_fails m f w h = ground arith

module _ {P S X A : Type 0} (h : X → Failure X) (m : Action (P × S) (Failure X) A) (w : P × S) where
  translate_ok : {a : A} {u : P × S} → m w ≡ (ok a, u) → translate h m w ≡ (ok a, u)
  translate_ok p = ground arith

  translate_raised :
      (e : Failure X) {u : P × S}
      → m w ≡ (raised e, u)
      → (e' : Failure X) × (translate h m w ≡ (raised e', u))
  translate_raised (outside x) p = (h x, ground arith)
  translate_raised (adapter_error a) p = (adapter_error a, ground arith)
  translate_raised runtime_error p = (runtime_error, ground arith)
  translate_raised type_error p = (type_error, ground arith)
  translate_raised unbound_local_error p = (unbound_local_error, ground arith)
  translate_raised attribute_error p = (attribute_error, ground arith)

module _ {C K U V R S X D : Type 0} (d : Driver C K U V R S X) (committed : S → D) where
  -- A write that returns has committed; one that raises an error of openframe-core has committed
  -- nothing, unless the commit itself raised.
  abbrev pub Written : {A : Type 0} → Outcome (Failure X) A → S → S → Type 0
  Written (ok a) s v = Commits d committed s v
  Written (raised (adapter_error a)) s v = (committed v ≡ committed s) ⊎ InDoubt d committed s v
  Written (raised e) s v = Unit {0}

  from :
      {A : Type 0} (r : Outcome (Failure X) A) {s s' : S} (v : S)
      → committed s' ≡ committed s
      → Ended d committed r s' v
      → Written r s v
  from (ok a) _ same (k, v, v', c, p, q) = (k, v, v', c, p ∙ same, q)
  from (raised (adapter_error a)) _ same (inl p) = inl (p ∙ same)
  from (raised (adapter_error a)) _ same (inr (k, v, x, v', c, p, q)) =
      inr (k, v, x, v', c, p ∙ same, q)
  from (raised (outside x)) _ same e = tt
  from (raised runtime_error) _ same e = tt
  from (raised type_error) _ same e = tt
  from (raised unbound_local_error) _ same e = tt
  from (raised attribute_error) _ same e = tt

  pub unwritten :
      (A : Type 0) (e : Failure X) {s : S} (v : S)
      → committed v ≡ committed s
      → Written {A = A} (raised e) s v
  unwritten A e v same = from {A = A} (raised e) v refl (inl same)

  -- The outcome and the world that a call left, by another name.
  Ended-at :
      {A : Type 0} (s : S) {p q : Outcome (Failure X) A × World C S}
      → p ≡ q
      → Ended d committed p.0 s p.1.1
      → Ended d committed q.0 s q.1.1
  Ended-at s h e = rw (← h) e

  Written-at :
      {A : Type 0} (s : S) {p q : Outcome (Failure X) A × World C S}
      → p ≡ q
      → Written p.0 s p.1.1
      → Written q.0 s q.1.1
  Written-at s h e = rw (← h) e

  -- Which exception it is does not matter.
  raised-Ended :
      (A : Type 0) (f g : Failure X) {s : S} (v : S)
      → Ended d committed {A = A} (raised f) s v
      → Ended d committed {A = A} (raised g) s v
  raised-Ended A f g v e = e

  translated :
      {A : Type 0} (h : X → Failure X) (m : Action (World C S) (Failure X) A) (w : World C S)
      (s : S)
      → Ended d committed (m w).0 s (m w).1.1
      → Ended d committed (translate h m w).0 s (translate h m w).1.1
  translated {A} h m w s e = elim (ran-cases (m w)) [
    | inl (a, p) ↦ Ended-at s (p ∙ sym (translate_ok h m w p)) e
    | inr (f, p) ↦
        let (g, q) = translate_raised h m w f p in
        Ended-at s (sym q) (raised-Ended A f g (m w).1.1 (Ended-at s p e))
  ]

  -- A part that leaves what is committed, and then the rest.
  pub after_read :
      {A B : Type 0} (m : Action (World C S) (Failure X) A)
      (f : A → Action (World C S) (Failure X) B) (w : World C S) (s : S)
      → Keeps d committed m
      → committed w.1 ≡ committed s
      → ((a : A) (u : World C S) → committed u.1 ≡ committed s → Written (f a u).0 s (f a u).1.1)
      → Written ((m >>= f) w).0 s ((m >>= f) w).1.1
  after_read {B = B} m f w s keeps same rest = elim (ran-cases (m w)) [
    | inl (a, p) ↦ rw (bind-step m f w p) (rest a (m w).1 (keeps w ∙ same))
    | inr (e, p) ↦ rw (bind_fails m f w p) (unwritten B e (m w).1.1 (keeps w ∙ same))
  ]

  Written-ok :
      {A B : Type 0} (a : A) (b : B) {s : S} (v : S) → Written (ok a) s v → Written (ok b) s v
  Written-ok a b v e = e

  Written-raised :
      (A B : Type 0) (e : Failure X) (s v : S)
      → Written {A = A} (raised e) s v
      → Written {A = B} (raised e) s v
  Written-raised A B (adapter_error a) s v h = h
  Written-raised A B (outside x) s v h = h
  Written-raised A B runtime_error s v h = h
  Written-raised A B type_error s v h = h
  Written-raised A B unbound_local_error s v h = h
  Written-raised A B attribute_error s v h = h

  -- A hook of the class behind a write.
  abbrev pub Pure : {A B : Type 0} → (A → Action (World C S) (Failure X) B) → Type 0
  Pure {A} {B} f =
      (a : A) (u : World C S)
      → ((b : B) × (f a u ≡ (ok b, u))) ⊎ ((x : X) × (f a u ≡ (raised (outside x), u)))

  pub then_hook :
      {A B : Type 0} (m : Action (World C S) (Failure X) A)
      (f : A → Action (World C S) (Failure X) B) (w : World C S) (s : S)
      → Pure f
      → Written (m w).0 s (m w).1.1
      → Written ((m >>= f) w).0 s ((m >>= f) w).1.1
  then_hook {A} {B} m f w s plain e = elim (ran-cases (m w)) [
    | inr (x, p) ↦
        Written-at s (sym (bind_fails m f w p))
          (Written-raised A B x s (m w).1.1 (Written-at s p e))
    | inl (a, p) ↦ elim (plain a (m w).1) [
      | inl (b, q) ↦
          Written-at s (sym (bind-step m f w p ∙ q)) (Written-ok a b (m w).1.1 (Written-at s p e))
      | inr (x, q) ↦ Written-at s (sym (bind-step m f w p ∙ q)) tt
    ]
  ]

  module _ (t : Transactional d committed) where
    pub pool-Keeps : (settings : MysqlSettings) → Keeps d committed (get_mysql_pool d settings)
    unfolding get_mysql_pool
    pool-Keeps settings w = grind (arith, t.create_pool_keeps)

    module _ {T : Type 0} (self : Repo V R X T) where
      pub row_of-Keeps : (e : T) → Keeps d committed (row_of d self e)
      unfolding row_of
      row_of-Keeps e w = ground arith

      pub insert-Keeps :
          (row : List (Text × V)) (u : U) → Keeps d committed (insert_statements d self row u)
      unfolding insert_statements
      insert-Keeps row u w = grind (arith, t.execute_keeps, t.fetchone_keeps)

      pub update-Keeps :
          (row cols : List (Text × V)) (u : U)
          → Keeps d committed (update_statements d self row cols u)
      unfolding update_statements
      update-Keeps row cols u w = grind (arith, t.execute_keeps, t.fetchone_keeps)

      pub delete-Keeps : (i : Text) (u : U) → Keeps d committed (delete_statement d self i u)
      unfolding delete_statement
      delete-Keeps i u w = grind (arith, t.execute_keeps)

      pub statement-Written :
          {A : Type 0} (op : String) (pool : C) (body : U → Action (World C S) (Failure X) A)
          (w : World C S) {s : S}
          → ((u : U) → Keeps d committed (body u))
          → committed w.1 ≡ committed s
          → let r = translate (statement_error d self.settings op) (writing d pool body) w in
            Written r.0 s r.1.1
      statement-Written op pool body w keeps same =
          let e = writing_ends d committed t pool body w keeps in
          from _ _ same
            (translated (statement_error d self.settings op) (writing d pool body) w w.1 e)
