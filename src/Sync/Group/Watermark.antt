-- ===== src/Sync/Group/Watermark.antt =====
-- The watermark of a sync group.
use Prim.Native.String.{String}
use ai_pipe.Prelude.{
  ℕ, ◌≤◌, ◌<◌, ◌≡◌, ◌≢◌, refl, sym, ap, ◌∙◌, arith, max, true, some, List, [], ◌∷◌, ◌==◌, string_eq,
  nat_eq, Bool-cases, inl, inr,
}
use ai_pipe.Prelude.Maps.{lookup}
use ai_pipe.Sync.Group.{
  Branch, Group, branch, invalid_frame, end_of_stream_frame, raise_by, effective_processed,
  lower_by, least_processed, update_watermark,
}

-- The greatest of a list of frames, 0 of none.
pub greatest : List ℕ → ℕ
greatest [] = 0
greatest (f ∷ fs) = max f (greatest fs)

raise_by-max : (effective : ℕ) (fs : List ℕ) → raise_by effective fs ≡ max effective (greatest fs)
unfolding raise_by greatest
raise_by-max effective [] = omega arith
raise_by-max effective (f ∷ fs) =
    ground (arith, raise_by-max effective fs, raise_by-max (max effective f) fs)

-- The effective frame of a branch is the greatest of what it processed and what it dropped.
pub effective_processed_lem :
    (s : Branch) → effective_processed s ≡ max s.processed_frame (greatest s.dropped_frames)
unfolding effective_processed
effective_processed_lem s = raise_by-max s.processed_frame s.dropped_frames

-- The watermark never falls.
pub update_watermark_mono : (g : Group) → g.watermark ≤ (update_watermark g).watermark
unfolding update_watermark
update_watermark_mono g = ground arith

-- A branch without an effective frame does not count.
lower_by-idle : (n : ℕ) (s : Branch) → effective_processed s ≡ invalid_frame → lower_by n s ≡ n
unfolding lower_by
lower_by-idle n s e = ground arith

lower_by-le :
    (n : ℕ) (s : Branch)
    → n ≤ end_of_stream_frame
    → effective_processed s ≤ end_of_stream_frame
    → lower_by n s ≤ n
unfolding lower_by
lower_by-le n s h e = ground arith

lower_by-counts :
    (n : ℕ) (s : Branch)
    → s.active ≡ true
    → effective_processed s ≢ invalid_frame
    → effective_processed s ≤ end_of_stream_frame
    → n ≤ end_of_stream_frame
    → lower_by n s ≤ effective_processed s
unfolding lower_by
lower_by-counts n s active counts e h = ground arith

-- Frame ids are 64-bit words.
abbrev pub IsBounded : List (String × Branch) → Type 0
IsBounded [] = Unit {0}
IsBounded ((_, s) ∷ rest) = (effective_processed s ≤ end_of_stream_frame) × IsBounded rest

lower_by-first :
    (s : Branch)
    → s.active ≡ true
    → 0 < effective_processed s
    → effective_processed s < end_of_stream_frame
    → lower_by end_of_stream_frame s ≡ effective_processed s
unfolding lower_by
lower_by-first s active pos below = ground arith

least_processed-le :
    (n : ℕ) (m : List (String × Branch))
    → n ≤ end_of_stream_frame
    → IsBounded m
    → least_processed n m ≤ n
unfolding least_processed
least_processed-le n [] h v = omega arith
least_processed-le n ((k, s) ∷ m) h v = omega (
  arith,
  lower_by-le n s h v.0,
  least_processed-le (lower_by n s) m (omega (arith, lower_by-le n s h v.0)) v.1,
)

least_processed-counts :
    (n : ℕ) (m : List (String × Branch)) (b : String) (s : Branch)
    → n ≤ end_of_stream_frame
    → IsBounded m
    → lookup b m ≡ some s
    → s.active ≡ true
    → effective_processed s ≢ invalid_frame
    → least_processed n m ≤ effective_processed s
unfolding least_processed lookup
least_processed-counts n [] b s h v found active counts = cc
least_processed-counts n ((k, t) ∷ m) b s h v found active counts =
    let step = lower_by-le n t h v.0 in
    elim (Bool-cases (k == b)) [
      | inl hit ↦
          let same : t ≡ s = ground (arith, hit) in
          let low : lower_by n t ≤ effective_processed t =
            lower_by-counts n t (ap (λ (x : Branch). x.active) same ∙ active)
              (λ e. counts (ap effective_processed (sym same) ∙ e)) v.0 h in
          omega (
            arith,
            low,
            least_processed-le (lower_by n t) m (omega arith) v.1,
            ap effective_processed same,
          )
      | inr miss ↦
          least_processed-counts (lower_by n t) m b s (omega arith) v.1 (ground (arith, miss))
            active counts
    ]

-- The updated watermark is at most the greater of the old one and the effective frame of any active
-- branch that has one, where effective frames are 64-bit words.
pub watermark_bound :
    (g : Group) (b : String) (s : Branch)
    → IsBounded g.branches
    → branch g b ≡ some s
    → s.active ≡ true
    → effective_processed s ≢ invalid_frame
    → (update_watermark g).watermark ≤ max g.watermark (effective_processed s)
unfolding update_watermark
watermark_bound g b s v found active counts = ground (
  arith,
  least_processed-counts end_of_stream_frame g.branches b s (omega arith) v found active counts,
)

least_processed-idle :
    (n : ℕ) (m : List (String × Branch)) (b : String) (s : Branch)
    → effective_processed s ≡ invalid_frame
    → least_processed n ((b, s) ∷ m) ≡ least_processed n m
unfolding least_processed
least_processed-idle n m b s idle = ap (λ (x : ℕ). least_processed x m) (lower_by-idle n s idle)

least_processed-one :
    (n : ℕ) (a : String) (s : Branch) → least_processed n ((a, s) ∷ []) ≡ lower_by n s
unfolding least_processed
least_processed-one n a s = refl

-- In a group of two branches of which one has neither processed nor dropped a frame, the watermark
-- moves to the effective frame of the other, if that one is active and its frame is above the
-- watermark and not the end-of-stream mark.
pub watermark_skips_idle :
    (g : Group) (b a : String) (idle s : Branch)
    → g.branches ≡ (b, idle) ∷ (a, s) ∷ []
    → effective_processed idle ≡ invalid_frame
    → s.active ≡ true
    → g.watermark < effective_processed s
    → effective_processed s < end_of_stream_frame
    → (update_watermark g).watermark ≡ effective_processed s
unfolding update_watermark
watermark_skips_idle g b a idle s e nothing active above below =
    let alone : least_processed end_of_stream_frame g.branches ≡ lower_by end_of_stream_frame s =
      ap (least_processed end_of_stream_frame) e
      ∙ least_processed-idle end_of_stream_frame ((a, s) ∷ []) b idle nothing
      ∙ least_processed-one end_of_stream_frame a s in
    ground (arith, alone, lower_by-first s active (omega arith) below)
