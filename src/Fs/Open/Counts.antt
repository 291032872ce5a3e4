-- ===== src/Fs/Open/Counts.antt =====
-- src/fs/handle.hpp and src/fs/manager.hpp: which handles of one file can be open at once.
use klee.Base.{◌+◌, ◌^◌, ◌<◌, ◌≡◌, ◌≢◌, ◌⊎◌, false, List, [], ◌∷◌, ◌++◌, success, is_error, length}
use klee.Fs.Open.{OpenMode, Attributes, Count, check_level, try_open, close, add_count}
use klee.Fs.Open.Levels.{readers, writers, Allows}

-- The counts of a file and the modes of its open handles.
pub record Opened : Type 0 where
  pub counts : Count
  pub handles : List OpenMode

-- A handle is opened, fails to open, or is closed by a driver that does not fail. Handles number less
-- than 2 ^ 32.
pub data Step (a : Attributes) (s : Opened) : Opened → Type 0 where
  opens :
      (mode : OpenMode)
      → (try_open a s.counts mode).0 ≡ success
      → length s.handles + 1 < 2 ^ 32
      → Step a s (record { counts = (try_open a s.counts mode).1; handles = mode ∷ s.handles })
  fails :
      (mode : OpenMode)
      → (try_open a s.counts mode).0 ≢ success
      → Step a s (record s { counts = (try_open a s.counts mode).1 })
  closes :
      (mode : OpenMode) (before after : List OpenMode)
      → s.handles ≡ before ++ mode ∷ after
      → Step a s
          (record { counts = (close false success mode s.counts).1; handles = before ++ after })

pub data Reach (a : Attributes) : Opened → Type 0 where
  unopened : Reach a (record { counts = record { read_count = 0; write_count = 0 }; handles = [] })
  next : {s t : Opened} → Reach a s → Step a s t → Reach a t

-- The counts are those of the open handles, which the levels allow; and of an exclusive file that is
-- both read and written only one handle is open that does either.
pub record IsCounted (a : Attributes) (s : Opened) : Type 0 where
  pub reads : s.counts.read_count ≡ readers s.handles
  pub writes : s.counts.write_count ≡ writers s.handles
  pub few : length s.handles < 2 ^ 32
  pub read_allowed : Allows a.read_level (readers s.handles)
  pub write_allowed : Allows a.write_level (writers s.handles)
  pub exclusion :
      (a.exclusive ≡ false)
      ⊎ (readers s.handles ≡ 0)
      ⊎ (writers s.handles ≡ 0)
      ⊎ ((readers s.handles ≡ 1) × (writers s.handles ≡ 1))

-- What an open that succeeds has found.
record IsOpening (a : Attributes) (c : Count) (mode : OpenMode) : Type 0 where
  for_read :
      (mode.read ≡ false)
      ⊎ (is_error (check_level a.read_level a.exclusive c.read_count c.write_count) ≡ false)
  for_write :
      (mode.write ≡ false)
      ⊎ (is_error (check_level a.write_level a.exclusive c.write_count c.read_count) ≡ false)
  counts : (try_open a c mode).1 ≡ record {
    read_count = add_count mode.read c.read_count;
    write_count = add_count mode.write c.write_count;
  }
