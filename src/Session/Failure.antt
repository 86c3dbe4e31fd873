-- ===== src/Session/Failure.antt =====
-- What a consolidation of agent/memory.py that fails leaves behind.
use amber_claw.Base.{◌≡◌, ◌⊎◌, some, String, List, [], ◌∷◌, ◌++◌}
use amber_claw.Base.Json
use amber_claw.Base.Json.{Json}
use amber_claw.Base.Key.{text_key}
use amber_claw.Session.{Session, MemoryStore, Model}

module _ (llm : Model) where
  -- The history is as it was, or has one more entry.
  abbrev pub IsNoted : List String → List String → Type 0
  IsNoted old new = (new ≡ old) ⊎ ((e : String) × (new ≡ old ++ llm.rstrip e ∷ []))

  -- The files after a failure: as they were; or the history as a write of it that raised leaves it; or the
  -- memory as its write that raised leaves it, after the history may have got its entry.
  abbrev pub IsLeft : MemoryStore → MemoryStore → Type 0
  IsLeft m m' =
      (m' ≡ m)
      ⊎ ((llm.history_write ≡ some m'.history_file) × (m'.memory_file ≡ m.memory_file))
      ⊎ ((llm.memory_write ≡ some m'.memory_file) × IsNoted m.history_file m'.history_file)
