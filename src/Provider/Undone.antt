-- ===== src/Provider/Undone.antt =====
-- A cache that has been added to a provider of src/provider.c and taken out again.
use cachercise.Base.{
  ◌≡◌, sym, ap, ◌∙◌, Bool, Option, String, true, false, ◌||◌, none, ◌==◌, arith, Bool-cases, inl,
  inr,
}
use mathlib.Core.Path.{subst}
use mathlib.Core.Option.{some-injective, none-ne-some}
use cachercise.Base.Run.{ok}
use cachercise.Common.{CacheId, Ptr}
use cachercise.Table.{UtHash}
use cachercise.Messages.{CloseCacheOut}
use cachercise.Provider.Creation.{Added}
use cachercise.Provider.Removal.{Gone}
use cachercise.Provider.Outcomes.{Closed, denied, missing, gone}
use cachercise.Provider.Sound.{IsSound}
use cachercise.Provider.{Cache, Provider, check_token, find_cache}

module _ {W T : Type 0} (hash : UtHash T (Cache W)) (IsHeap : W → Type 0) (live : W → Ptr → Bool)
    (p : Provider W T) (w : W) where
  -- The provider `q` and the memory `v` have the caches and the contexts of `p` and `w`.
  pub record Restored (q : Provider W T) (v : W) : Type 0 where
    pub sound : IsSound hash IsHeap live q v
    pub caches : (j : CacheId) → find_cache hash q j ≡ find_cache hash p j
    pub contexts : (c : Ptr) → live v c ≡ live w c

  -- `r` was added to `p`, under a free id and with a context that was not in use.
  module _ (grown : Provider W T) (m : W) (r : Cache W) (unused : find_cache hash p r.id ≡ none)
      (added : Added hash p r grown) (fresh : live w r.ctx ≡ false)
      (contexts : (c : Ptr) → live m c ≡ ((c == r.ctx) || live w c)) where
    gone-Restored :
        (q : Provider W T) (v : W) → Gone hash IsHeap live grown m r.id r q v → Restored q v
    gone-Restored q v g = record {
      sound = g.sound;
      caches = λ j. elim (Bool-cases (r.id == j)) [
        | inl e ↦
            let same : r.id ≡ j = ground arith in
            subst (λ k. find_cache hash q k ≡ find_cache hash p k) same (g.absent ∙ sym unused)
        | inr n ↦ g.others j n ∙ added.others j n
      ];
      contexts = λ c. ground (arith, g.released c, contexts c, fresh, ap (live w));
    }

    -- The answer to an administrator who closes or destroys it.
    pub closed-Restored :
        (token : Option String) (out : CloseCacheOut) (q : Provider W T) (v : W)
        → check_token grown token ≡ ok true
        → Closed hash IsHeap live grown m (record { token = token; id = r.id }) out q v
        → Restored q v
    closed-Restored token out q v accepted (denied d a b c) = cc (accepted, d)
    closed-Restored token out q v accepted (missing d a b c e) =
        absurd (none-ne-some _ (sym a ∙ added.present))
    closed-Restored token out q v accepted (gone d r' a g) =
        let same = some-injective _ _ (sym a ∙ added.present) in
        gone-Restored q v (subst (λ s. Gone hash IsHeap live grown m r.id s q v) same g)
