-- ===== src/System/Fifo/Refines.antt =====
-- No sequence of `enqueue` and `dequeue_task` calls of one queue tells the server from a first-in
-- first-out queue (rediq/src/client/builder.rs, rediq/src/server/worker.rs).
use rediq.Prelude.{
  ℕ, suc, String, str_eq, true, false, ◌≡◌, refl, ap, sym, ◌∙◌, none, some, List, [], ◌∷◌, ◌++◌,
  contains, arith, eq_refl, eq_iff, str_eq_sym, if◌then◌else◌, Bool-cases, inl, inr,
}
use mathlib.Core.Path.{subst}
use rediq.Errors.{Result, ok, err}
use rediq.Keys.{Family, key}
use rediq.Redis.{bytes, number, ◌>>=◌, pure}
use rediq.Redis.Keyspace.{Keyspace, put_fields, store_list, store_hash, expiry, as_hash, as_list}
use rediq.Redis.Reads.{as_list-list_slot, as_set-set_slot}
use rediq.Redis.Server.{
  Server, observed, outcome, outcome-eq-replay, replay, replay-then, replay-bind, continue,
}
use rediq.Config.{RediqConfig}
use rediq.Task.{Task}
use rediq.Codec.{Codec, IsFaithful}
use rediq.Client.{enqueue}
use rediq.Client.Enqueueing.{IsNew, enqueue_plain, registered, stored}
use rediq.Worker.{dequeue_task, activated}
use rediq.Worker.Dequeue.{IsReadable, dequeue_first, dequeue_empty}
use rediq.System.RoundTrip.{IsPlain}
use rediq.System.Fifo.{
  QueueCall, put, take, Answer, entered, given, serve, serve_all, abstract_calls, SuitsQueue,
}
use rediq.System.Fifo.Holding.{
  Holds, HoldsTasks, data_of, data_in-status, details_of_data, HoldsTasks-kept, HoldsTasks-append,
  ids, used-ne-unused, ids-append,
}

module _ {B : Type 0} (codec : Codec B) (faithful : IsFaithful codec) (cfg : RediqConfig) (ttl : ℕ)
    (lives : cfg.task_ttl ≡ suc ttl) (s : Server B) (timeout : ℕ) (queue : String) where
  prepended :
      (a : Answer) (rest : List Answer) (o : Result (List Answer) × Keyspace B)
      → o.0 ≡ ok rest
      → (continue s.order (λ rest. pure (a ∷ rest)) o).0 ≡ ok (a ∷ rest)
  unfolding replay
  prepended a rest (ok l, ks) e = ground (arith, e)
  prepended a rest (err x, ks) e = cc

  -- The answers of a sequence are the first call's and those of the rest.
  serve_next :
      (c : QueueCall) (cs : List QueueCall) (ks ks' : Keyspace B) (a : Answer) {rest : List Answer}
      → replay s.order (serve codec cfg timeout queue c) ks ≡ (ok a, ks')
      → (replay s.order (serve_all codec cfg timeout queue cs) ks').0 ≡ ok rest
      → (replay s.order (serve_all codec cfg timeout queue (c ∷ cs)) ks).0 ≡ ok (a ∷ rest)
  unfolding replay
  serve_next c cs ks ks' a {rest} e r =
      ap (λ (o : Result (List Answer) × Keyspace B). o.0)
        (replay-then s.order (serve codec cfg timeout queue c)
            (λ a. do rest ← serve_all codec cfg timeout queue cs; pure (a ∷ rest)) ks ks' a e
          ∙ replay-bind s.order (serve_all codec cfg timeout queue cs) (λ rest. pure (a ∷ rest))
              ks')
      ∙ prepended a rest (replay s.order (serve_all codec cfg timeout queue cs) ks') r

  module _ (ks : Keyspace B) (used : List String) (q : List Task)
      (h : Holds codec queue ks used q) where
    -- A call is answered as the queue of tasks answers it, and the server holds the queue behind it.
    abbrev Answers : QueueCall → List String → Answer → List Task → Type 0
    Answers c used' a q' =
        (ks' : Keyspace B) × (replay s.order (serve codec cfg timeout queue c) ks ≡ (ok a, ks'))
        × Holds codec queue ks' used' q'

    put_answers :
        (t : Task) (now : ℕ)
        → contains used t.id ≡ false
        → IsPlain t
        → t.queue ≡ queue
        → Answers (put t now) (t.id ∷ used) (entered t.id) (q ++ t ∷ [])
    unfolding replay
    put_answers t now fresh plain same =
        let (packed, packs) = faithful.packs t in
        let new : IsNew codec cfg ks t packed ttl = record {
          fresh = h.unused t.id fresh;
          packs = packs;
          lives = lives;
        } in
        let at_queue : as_list (ks (key Family.queue t.queue)) ≡ some (ids q) =
          ap (λ z. as_list (ks (key Family.queue z))) same ∙ h.waiting in
        let entering =
          sym (outcome-eq-replay (observed s) (enqueue codec cfg t now) ks)
          ∙ enqueue_plain codec cfg (observed s) ks t now packed ttl new h.queues (ids q)
              plain.alone plain.common plain.single plain.unranked h.registered at_queue in
        let ks' : Keyspace B =
          store_list
            (registered codec cfg (observed s) ks t now packed ttl new
              (stored codec cfg (observed s) ks t now packed ttl new) h.queues)
            (key Family.queue t.queue) (ids q ++ t.id ∷ []) in
        let here : str_eq t.queue queue ≡ true = (eq_iff t.queue queue).1 same in
        let more : (id : String) → contains used id ≡ true → contains (t.id ∷ used) id ≡ true =
          λ id u. ground (arith, u) in
        let kept : (id : String) → contains used id ≡ true → data_of ks' id ≡ data_of ks id =
          λ id u. rw (used-ne-unused used t.id id fresh u) refl in
        (
          ks',
          replay-then s.order (enqueue codec cfg t now) (λ id. pure (entered id)) ks ks' t.id
              entering,
          record {
            unpaused = h.unpaused;
            queues = (if contains h.queues t.queue then h.queues else h.queues ++ t.queue ∷ []);
            registered = as_set-set_slot B _ _;
            waiting = rw here (as_list-list_slot B _ _ ∙ ap some (sym (ids-append q (t ∷ []))));
            actives = h.actives;
            active = h.active;
            unused = λ id n. ground (arith, n, h.unused id);
            tasks =
                HoldsTasks-append codec ks' (t.id ∷ used) q t
                  (HoldsTasks-kept codec ks ks' used (t.id ∷ used) q kept more h.tasks)
                  (ground (arith, eq_refl t.id))
                  (packed, rw (eq_refl t.id) refl, faithful.unpacks t packed packs);
          },
        )

    take_empty : (now : ℕ) → q ≡ [] → Answers (take now) used (given none) []
    unfolding replay
    take_empty now e = (
      ks,
      replay-then s.order (dequeue_task codec timeout queue now) (λ t. pure (given t)) ks ks none
          (sym (outcome-eq-replay (observed s) (dequeue_task codec timeout queue now) ks)
            ∙ dequeue_empty codec (observed s) ks timeout queue now h.unpaused
                (h.waiting ∙ ap (λ l. some (ids l)) e)),
      record {
        unpaused = h.unpaused;
        queues = h.queues;
        registered = h.registered;
        waiting = h.waiting ∙ ap (λ l. some (ids l)) e;
        actives = h.actives;
        active = h.active;
        unused = h.unused;
        tasks = tt;
      },
    )

    take_first :
        (now : ℕ) (t : Task) (r : List Task)
        → q ≡ t ∷ r
        → Answers (take now) used (given (some (activated codec t now))) r
    unfolding replay
    take_first now t r e =
        let (u, (b, d, un), rest) = subst (HoldsTasks codec ks used) e h.tasks in
        let (hash, held, has) = details_of_data (as_hash (ks (key Family.task t.id))) (bytes b) d in
        let readable : IsReadable codec ks t.id hash b t = record {
          held = held;
          has_data = has;
          read = faithful.as_bytes-bytes b;
          unpacks = un;
        } in
        let ks' : Keyspace B =
          store_hash
            (store_list (store_list ks (key Family.queue queue) (ids r)) (key Family.active queue)
              (t.id ∷ h.actives))
            (key Family.task t.id) (put_fields (("status", number now) ∷ []) hash) in
        let kept : (id : String) → contains used id ≡ true → data_of ks' id ≡ data_of ks id =
          λ id _. elim (Bool-cases (str_eq t.id id)) [
            | inl y ↦ rw y (
                data_in-status (expiry (ks (key Family.task t.id))) (number now) hash
                ∙ has
                ∙ sym d
                ∙ ap (data_of ks) ((eq_iff t.id id).0 y))
            | inr n ↦ rw n refl
          ] in
        (
          ks',
          replay-then s.order (dequeue_task codec timeout queue now) (λ t. pure (given t)) ks ks'
              (some (activated codec t now))
              (sym (outcome-eq-replay (observed s) (dequeue_task codec timeout queue now) ks)
                ∙ dequeue_first codec (observed s) ks timeout queue now t.id (ids r) h.actives hash
                    b t h.unpaused (h.waiting ∙ ap (λ l. some (ids l)) e) h.active readable),
          record {
            unpaused = h.unpaused;
            queues = h.queues;
            registered = h.registered;
            waiting =
                rw (eq_refl queue)
                  (as_list-list_slot B (expiry (ks (key Family.queue queue))) (ids r));
            actives = t.id ∷ h.actives;
            active =
                rw (eq_refl queue)
                  (as_list-list_slot B (expiry (ks (key Family.active queue))) (t.id ∷ h.actives));
            unused =
                λ id n. rw (str_eq_sym t.id id, used-ne-unused used id t.id n u) (h.unused id n);
            tasks = HoldsTasks-kept codec ks ks' used used r kept (λ id v. v) rest;
          },
        )

  calls_answer :
      (cs : List QueueCall) (ks : Keyspace B) (used : List String) (q : List Task)
      → Holds codec queue ks used q
      → SuitsQueue queue used cs
      → (replay s.order (serve_all codec cfg timeout queue cs) ks).0
        ≡ ok (abstract_calls codec cs q)
  unfolding replay
  calls_answer [] ks used q h m = refl
  calls_answer (put t now ∷ cs) ks used q h (fresh, plain, same, m) =
      let (ks', e, h') = put_answers ks used q h t now fresh plain same in
      serve_next (put t now) cs ks ks' _ e (calls_answer cs ks' (t.id ∷ used) (q ++ t ∷ []) h' m)
  calls_answer (take now ∷ cs) ks used [] h m =
      let (ks', e, h') = take_empty ks used [] h now refl in
      serve_next (take now) cs ks ks' _ e (calls_answer cs ks' used [] h' m)
  calls_answer (take now ∷ cs) ks used (t ∷ q) h m =
      let (ks', e, h') = take_first ks used (t ∷ q) h now t q refl in
      serve_next (take now) cs ks ks' _ e (calls_answer cs ks' used q h' m)

  -- With a faithful codec and a positive expiry, any sequence of `enqueue` and `dequeue_task`
  -- calls of one queue, each of a task of this queue under an identifier not used before, without
  -- dependencies, unique key or group and of the priority 50, gives the answers of a first-in
  -- first-out queue, when the server holds a queue of tasks to begin with that is not paused:
  -- every task is given once, in the order of the calls, and no task only when none waits.
  pub fifo_refines :
      (cs : List QueueCall) (db : s.Db) (used : List String) (q : List Task)
      → Holds codec queue (s.view db) used q
      → SuitsQueue queue used cs
      → (outcome s (serve_all codec cfg timeout queue cs) db).0 ≡ ok (abstract_calls codec cs q)
  fifo_refines cs db used q h m =
      ap (λ (o : Result (List Answer) × Keyspace B). o.0)
        (outcome-eq-replay s (serve_all codec cfg timeout queue cs) db)
      ∙ calls_answer cs (s.view db) used q h m
