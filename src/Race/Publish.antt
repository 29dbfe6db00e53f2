-- ===== src/Race/Publish.antt =====
-- Phase 4 of labs/lab_18_concurrency.c and of labs/lab_25_sync_primitives.c: data that is written before a flag is set, and
-- read after the flag. In both programs one thread does it all, in the order of its statements.
use linux_page_cache_lab.Base.{ℕ, ◌==◌, List, [], ◌∷◌, ◌++◌, if◌then◌else◌}
use linux_page_cache_lab.Report.{Event, shows}

pub record Cell : Type 0 where
  pub flag : ℕ
  pub data_word : ℕ

abbrev pub blank : Cell
blank = record { flag = 0; data_word = 0 }

-- The data, and then the flag.
abbrev pub publish : (value : ℕ) → Cell → Cell
publish value c = record { flag = 1; data_word = value }

abbrev pub reset : Cell → Cell
reset c = record c { flag = 0 }

-- What is printed of the data, if the flag is set.
abbrev pub subscribe : Cell → List Event
subscribe c = if c.flag == 0 then [] else shows "data" c.data_word ∷ []

unfoldable pub flag_demo : List Event
flag_demo = subscribe (publish 42 blank)

-- `lock_flag`, with release and acquire, and then with the default order.
unfoldable pub release_demo : List Event
release_demo =
    let released = publish 12345 blank in
    subscribe released ++ subscribe (publish 99999 (reset released))
