-- ===== src/Fs/Contents.antt =====
-- The contents of a store, as a view of the world: what the keys hold, `none` for no file. For a
-- disk the keys are paths.
use vire_fs.Base.{Option, none, some, ◌≡◌, ◌≢◌, sym, ◌∙◌}
use vire_fs.Bytes.{Bytes}
use vire_fs.Fs.{Reader, ReadCloser}

abbrev pub Contents : Type 0 → Type 0
Contents W = W → Bytes → Option Bytes

module _ {W : Type 0} (content : Contents W) where
  abbrev pub Unchanged : W → W → Type 0
  Unchanged w v = (q : Bytes) → content v q ≡ content w q

  abbrev pub UnchangedBut : Bytes → W → W → Type 0
  UnchangedBut p w v = (q : Bytes) → q ≢ p → content v q ≡ content w q

  -- An open reader: what is read is what the key holds then.
  pub record ReadsFrom (p : Bytes) (rc : ReadCloser W) : Type 0 where
    pub reads : (w : W) (b : Bytes) → (rc.read w).0 ≡ (b, none) → content w p ≡ some b
    pub keeps : (w : W) → Unchanged w (rc.read w).1
    pub closes : (w : W) → Unchanged w (rc.close w)

  -- A reader that was opened in the world `v`: while the key holds what it held then, that is what
  -- is read.
  pub record Opened (p : Bytes) (v : W) (rc : ReadCloser W) : Type 0 where
    pub reads :
        (w : W) (b : Bytes)
        → content w p ≡ content v p
        → (rc.read w).0 ≡ (b, none)
        → content v p ≡ some b
    pub keeps : (w : W) → Unchanged w (rc.read w).1
    pub closes : (w : W) → Unchanged w (rc.close w)

  pub ReadsFrom-Opened : (p : Bytes) (v : W) (rc : ReadCloser W) → ReadsFrom p rc → Opened p v rc
  ReadsFrom-Opened p v rc from = record {
    reads = λ w b same e. sym same ∙ from.reads w b e;
    keeps = from.keeps;
    closes = from.closes;
  }

  -- A reader that leaves the contents alone.
  abbrev pub Keeps : Reader W → Type 0
  Keeps r = (w : W) → Unchanged w (r w).1

-- What the write put at the path, and what else there was.
pub record Stored {W : Type 0} (content : Contents W) (r : Reader W) (p : Bytes) (w w' : W)
    : Type 0 where
  pub at : W
  pub bytes : Bytes
  pub given : (r at).0 ≡ (bytes, none)
  pub holds : content w' p ≡ some bytes
  pub others : (q c : Bytes) → q ≢ p → content w q ≡ some c → content w' q ≡ some c
