-- ===== src/Keys/Names.antt =====
-- `key_eq` decides the equality of keys (the keys of rediq/src/storage/keys.rs).
use rediq.Prelude.{◌≡◌, refl, ap, true, some, List, [], ◌∷◌, get_elem?, arith, eq_iff, eq_refl}
use rediq.Keys.{Family, Key, tag, key_eq}

abbrev pub families : List Family
families =
    Family.queue ∷ Family.priority_queue ∷ Family.cron_queue ∷ Family.active ∷ Family.delayed
    ∷ Family.retry ∷ Family.dead ∷ Family.dedup ∷ Family.task ∷ Family.meta_queues
    ∷ Family.meta_workers ∷ Family.meta_worker ∷ Family.meta_heartbeat ∷ Family.pause ∷ Family.stats
    ∷ Family.pending_deps ∷ Family.task_deps ∷ Family.progress ∷ Family.group ∷ Family.meta_group
    ∷ []

family_at-tag : (f : Family) → get_elem? families (tag f) ≡ some f
family_at-tag Family.queue = refl
family_at-tag _ = refl

pub tag_injective : (f g : Family) → tag f ≡ tag g → f ≡ g
tag_injective f g e = cc (family_at-tag f, family_at-tag g, ap (get_elem? families) e)

pub key_eq_refl : (k : Key) → key_eq k k ≡ true
key_eq_refl k = ground (arith, eq_refl k.name)

pub key_eq-true : (k j : Key) → key_eq k j ≡ true → k ≡ j
key_eq-true k j e =
    let f : k.family ≡ j.family = tag_injective k.family j.family (ground arith) in
    let n : k.name ≡ j.name = (eq_iff k.name j.name).0 (ground arith) in
    λ i. record { family = f i; name = n i }
