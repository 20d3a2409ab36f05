-- ===== src/Processor/Routing.antt =====
-- Where the multiplexer sends a task (rediq/src/processor/mod.rs).
use rediq.Prelude.{
  String, str_eq, str_eq_sym, eq_iff, ◌≡◌, refl, sym, ◌∙◌, false, Bool-cases, inl, inr, arith, none,
  some, List, [], ◌∷◌, if◌then◌else◌,
}
use rediq.Errors.{Result}
use rediq.Task.{Task}
use rediq.Processor.{
  Mux, lookup, insert, drop_key, has_key, handle, routed, process_with_context, remove,
}

module _ {H : Type 0} where
  lookup-insert :
      (k j : String) (h : H) (l : List (String × H))
      → lookup j (insert k h l) ≡ (if str_eq k j then some h else lookup j l)
  lookup-insert k j h [] = refl
  lookup-insert k j h ((i, g) ∷ l) = elim (Bool-cases (str_eq i k)) [
    | inl y ↦
        let e : i ≡ k = (eq_iff i k).0 y in
        rw y (rw e (elim (Bool-cases (str_eq k j)) [ inl a ↦ rw a refl | inr b ↦ rw b refl ]))
    | inr n ↦ rw n (elim (Bool-cases (str_eq i j)) [
      | inl a ↦
          let e : i ≡ j = (eq_iff i j).0 a in rw a (sym (rw (str_eq_sym k j ∙ (rw e at n)) refl))
      | inr b ↦ rw b (lookup-insert k j h l)
    ])
  ]

  -- Keys come once.
  abbrev pub AreKeyed : List (String × H) → Type 0
  AreKeyed [] = Unit
  AreKeyed ((k, h) ∷ l) = (has_key k l ≡ false) × AreKeyed l

  lookup-absent : (k : String) (l : List (String × H)) → has_key k l ≡ false → lookup k l ≡ none
  lookup-absent k [] h = refl
  lookup-absent k ((j, g) ∷ l) h = ground (arith, lookup-absent k l)

  lookup-drop_key :
      (k j : String) (l : List (String × H))
      → AreKeyed l
      → lookup j (drop_key k l) ≡ (if str_eq k j then none else lookup j l)
  lookup-drop_key k j [] d = elim (Bool-cases (str_eq k j)) [
    | inl a ↦ rw a refl
    | inr b ↦ rw b refl
  ]
  lookup-drop_key k j ((i, g) ∷ l) (f, d) = elim (Bool-cases (str_eq i k)) [
    | inl y ↦
        let e : i ≡ k = (eq_iff i k).0 y in
        rw y (elim (Bool-cases (str_eq k j)) [
          | inl a ↦ let c : i ≡ j = e ∙ (eq_iff k j).0 a in rw a (lookup-absent j l (rw c at f))
          | inr b ↦ let c : str_eq i j ≡ false = rw e b in rw b (rw c refl)
        ])
    | inr n ↦ rw n (elim (Bool-cases (str_eq i j)) [
      | inl a ↦ let c : i ≡ j = (eq_iff i j).0 a in rw a (rw (str_eq_sym k j ∙ (rw c at n)) refl)
      | inr b ↦ rw b (lookup-drop_key k j l d)
    ])
  ]

  has_key-insert :
      (k j : String) (h : H) (l : List (String × H))
      → str_eq k j ≡ false
      → has_key j l ≡ false
      → has_key j (insert k h l) ≡ false
  has_key-insert k j h [] n f = ground (arith, n)
  has_key-insert k j h ((i, g) ∷ l) n f = ground (arith, n, f, has_key-insert k j h l n)

  insert-AreKeyed :
      (k : String) (h : H) (l : List (String × H)) → AreKeyed l → AreKeyed (insert k h l)
  insert-AreKeyed k h [] d = (refl, tt)
  insert-AreKeyed k h ((i, g) ∷ l) (f, d) = elim (Bool-cases (str_eq i k)) [
    | inl y ↦ rw y (f, d)
    | inr n ↦ rw n (has_key-insert k i h l (str_eq_sym k i ∙ n) f, insert-AreKeyed k h l d)
  ]

  has_key-drop_key :
      (k j : String) (l : List (String × H))
      → has_key j l ≡ false
      → has_key j (drop_key k l) ≡ false
  has_key-drop_key k j [] f = refl
  has_key-drop_key k j ((i, g) ∷ l) f = ground (arith, f, has_key-drop_key k j l)

  drop_key-AreKeyed : (k : String) (l : List (String × H)) → AreKeyed l → AreKeyed (drop_key k l)
  drop_key-AreKeyed k [] d = tt
  drop_key-AreKeyed k ((i, g) ∷ l) (f, d) = elim (Bool-cases (str_eq i k)) [
    | inl y ↦ rw y d
    | inr n ↦ rw n (has_key-drop_key k i l f, drop_key-AreKeyed k l d)
  ]

  -- The map of a multiplexer holds each task type once.
  abbrev pub IsKeyed : Mux H → Type 0
  IsKeyed m = AreKeyed m.handlers

  pub handle-IsKeyed :
      (m : Mux H) (task_type : String) (h : H) → IsKeyed m → IsKeyed (handle m task_type h)
  unfolding handle
  handle-IsKeyed m task_type h d = insert-AreKeyed task_type h m.handlers d

  pub remove-IsKeyed : (m : Mux H) (task_type : String) → IsKeyed m → IsKeyed (remove m task_type).1
  unfolding remove
  remove-IsKeyed m task_type d = drop_key-AreKeyed task_type m.handlers d

module _ {H C : Type 0} (run : H → Task → C → Result (Unit {0})) where
  -- After `handle` of a task type a task of that type goes to the new handler, and any other task
  -- to the handler that it went to before.
  pub process-handle :
      (m : Mux H) (task_type : String) (h : H) (t : Task) (ctx : C)
      → process_with_context run (handle m task_type h) t ctx
        ≡ (if str_eq task_type t.task_type then run h t ctx else process_with_context run m t ctx)
  unfolding process_with_context handle
  process-handle m task_type h t ctx =
      ground (arith, lookup-insert task_type t.task_type h m.handlers)

  -- After `remove` of a task type from a multiplexer that holds each type once, a task of that
  -- type goes to the default handler or is refused if there is none, and any other task goes
  -- where it went before.
  pub process-remove :
      (m : Mux H) (task_type : String) (t : Task) (ctx : C)
      → IsKeyed m
      → process_with_context run (remove m task_type).1 t ctx ≡ (
          if str_eq task_type t.task_type
          then routed run m.default_handler t ctx
          else process_with_context run m t ctx)
  unfolding process_with_context remove
  process-remove m task_type t ctx d =
      ground (arith, lookup-drop_key task_type t.task_type m.handlers d)
