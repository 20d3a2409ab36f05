-- ===== src/Keys.antt =====
-- storage/keys.rs (rediq/src/storage/keys.rs): the names of the keys that the framework uses.
-- A key is its family and the name it is made for; `render` is the text that goes to the server.
pub mod Names
pub mod Parsing
use Prim.Native.String.{◌++◌}
use rediq.Prelude.{ℕ, String, Bool, ◌&&◌, ◌==◌, str_eq}

pub data Family : Type 0 where
  queue priority_queue cron_queue active delayed retry dead dedup task : Family
  meta_queues meta_workers meta_worker meta_heartbeat pause stats : Family
  pending_deps task_deps progress group meta_group : Family

pub record Key : Type 0 where
  pub family : Family
  pub name : String

abbrev pub key : Family → String → Key
key f n = record { family = f; name = n }

-- The text before the name. The two keys of the whole system have no name.
unfoldable pub prefix : Family → String
prefix Family.queue = "rediq:queue:"
prefix Family.priority_queue = "rediq:pqueue:"
prefix Family.cron_queue = "rediq:cron:"
prefix Family.active = "rediq:active:"
prefix Family.delayed = "rediq:delayed:"
prefix Family.retry = "rediq:retry:"
prefix Family.dead = "rediq:dead:"
prefix Family.dedup = "rediq:dedup:"
prefix Family.task = "rediq:task:"
prefix Family.meta_queues = "rediq:meta:queues"
prefix Family.meta_workers = "rediq:meta:workers"
prefix Family.meta_worker = "rediq:meta:worker:"
prefix Family.meta_heartbeat = "rediq:meta:heartbeat:"
prefix Family.pause = "rediq:pause:"
prefix Family.stats = "rediq:stats:"
prefix Family.pending_deps = "rediq:pending_deps:"
prefix Family.task_deps = "rediq:task_deps:"
prefix Family.progress = "rediq:progress:"
prefix Family.group = "rediq:group:"
prefix Family.meta_group = "rediq:meta:group:"

unfoldable pub render : Key → String
unfolding prefix
render k = prefix k.family ++ k.name

-- A number for each family, by which two families are compared.
abbrev pub tag : Family → ℕ
tag Family.queue = 0
tag Family.priority_queue = 1
tag Family.cron_queue = 2
tag Family.active = 3
tag Family.delayed = 4
tag Family.retry = 5
tag Family.dead = 6
tag Family.dedup = 7
tag Family.task = 8
tag Family.meta_queues = 9
tag Family.meta_workers = 10
tag Family.meta_worker = 11
tag Family.meta_heartbeat = 12
tag Family.pause = 13
tag Family.stats = 14
tag Family.pending_deps = 15
tag Family.task_deps = 16
tag Family.progress = 17
tag Family.group = 18
tag Family.meta_group = 19

abbrev pub key_eq : Key → Key → Bool
key_eq k j = (tag k.family == tag j.family) && str_eq k.name j.name
