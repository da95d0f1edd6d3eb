-- ===== src/Sync/Reorg/Walk.antt =====
-- `walk_back_to_divergence`: it reads only, and it finds the lowest height of the fork.
use indexer_rs.Base.{
  ◌≡◌, ◌∙◌, refl, inl, inr, ℕ, zero, suc, ◌≤◌, ◌<◌, pos, Bool, true, false, Option, arith, ok,
  Bool-cases,
}
use native.Mathlib.Decide.{ℕ_discrete}
use indexer_rs.Domain.{BlockHeight, Hash}
use indexer_rs.Db.Schema.{Db}
use indexer_rs.Db.Chain.{get_by_height}
use indexer_rs.Db.Session.{query}
use indexer_rs.Db.Runs.{healthy}
use indexer_rs.Sync.World.{World, sql}
use indexer_rs.Sync.Reorg.{Remote, local_block, differ, walk_back_to_divergence}

-- A world whose connection does not fail.
abbrev pub calm : World → World
calm w = record w { session = healthy w.db }

-- A chain that answers every call, as `view` says.
abbrev pub answers : (BlockHeight → Option Hash) → Remote
answers view h = ok (view h)

pub local_block-calm :
    (h : BlockHeight) (w : World) → local_block h (calm w) ≡ (ok (get_by_height h w.db), calm w)
unfolding local_block sql query
local_block-calm h w = refl

pub local_block-db : (h : BlockHeight) (w : World) → (local_block h w).1.db ≡ w.db
unfolding local_block sql query
local_block-db h w = ground arith

-- Whether the tables and the chain have a block at the height, with different hashes.
abbrev pub forked : (BlockHeight → Option Hash) → Db → ℕ → Bool
forked view db k = differ (get_by_height (pos k) db) (view (pos k))

-- `d` is the height that the walk from `n` has to find: every height from `d` to below `n` is forked, and
-- the one below `d`, if there is one, is not.
pub record Divergence (view : BlockHeight → Option Hash) (db : Db) (n d : ℕ) : Type 0 where
  pub bound : d ≤ n
  pub above : (k : ℕ) → d ≤ k → k < n → forked view db k ≡ true
  pub below : (k : ℕ) → suc k ≡ d → forked view db k ≡ false

walk_stops :
    (view : BlockHeight → Option Hash) (n : ℕ) (w : World)
    → forked view w.db n ≡ false
    → walk_back_to_divergence (answers view) (suc n) (calm w) ≡ (ok (pos (suc n)), calm w)
unfolding walk_back_to_divergence
walk_stops view n w h = rw (local_block-calm (pos n) w, h) refl

walk_goes_on :
    (view : BlockHeight → Option Hash) (n : ℕ) (w : World)
    → forked view w.db n ≡ true
    → walk_back_to_divergence (answers view) (suc n) (calm w)
      ≡ walk_back_to_divergence (answers view) n (calm w)
unfolding walk_back_to_divergence
walk_goes_on view n w h = rw (local_block-calm (pos n) w, h) refl

-- On a connection and a chain that answer, the walk from `n` returns, and what it returns is the height
-- `d` such that the tables and the chain differ at every height from `d` to below `n` and do not at
-- `d - 1`; it changes nothing.
pub walk_back-Divergence :
    (view : BlockHeight → Option Hash) (n : ℕ) (w : World)
    → (d : ℕ) × (walk_back_to_divergence (answers view) n (calm w) ≡ (ok (pos d), calm w))
      × Divergence view w.db n d
unfolding walk_back_to_divergence
walk_back-Divergence view zero w = (
  0,
  refl,
  record {
    bound = omega arith;
    above = λ k a b. absurd (omega arith);
    below = λ k a. absurd (omega arith);
  },
)
walk_back-Divergence view (suc n) w = elim (Bool-cases (forked view w.db n)) [
  | inr same ↦ (
    suc n,
    walk_stops view n w same,
    record {
      bound = omega arith;
      above = λ k a b. absurd (omega arith);
      below = λ k e. let is : k ≡ n = omega arith in rw is same;
    },
  )
  | inl fork ↦
      let (d, run, found) = walk_back-Divergence view n w in
      (
        d,
        walk_goes_on view n w fork ∙ run,
        record {
          bound = let b = found.bound in omega arith;
          above = λ k a b. elim (ℕ_discrete k n) [
            | yes is ↦ rw is fork
            | no less ↦ found.above k a (omega arith)
          ];
          below = found.below;
        },
      )
]

-- Whatever fails on the way, the walk changes no table.
pub walk_back-reads :
    (remote : Remote) (n : ℕ) (w : World) → (walk_back_to_divergence remote n w).1.db ≡ w.db
unfolding walk_back_to_divergence
walk_back-reads remote zero w = refl
walk_back-reads remote (suc n) w =
    let there = local_block-db (pos n) w in
    let rest = walk_back-reads remote n (local_block (pos n) w).1 in ground (arith, there, rest)
