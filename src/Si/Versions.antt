-- ===== src/Si/Versions.antt =====
-- The stores of si/ to a version in flight, and the compare-and-swap that publishes one, keep the order of
-- the versions of the tuple.
use ccbench.Common.{ℕ, suc, ◌≤◌, ◌<◌, ◌≡◌, inr, refl, true, false, Option, none, some, arith}
use ccbench.Common.Family.{assign}
use ccbench.Si.Types.{VersionStatus, Version, Tuple}
use ccbench.Si.Workers.{is_committed, is_in_flight}
use ccbench.Si.Invariant.{IsCommitted, IsFlying, IsTop, IsOrdered}

pub not_both : (s : VersionStatus) → is_committed s ≡ true → is_in_flight s ≡ true → ⊥
not_both s c f = ground (arith, c, f)

module _ {a c : ℕ} {t : Tuple} (o : IsOrdered a c t) where
  -- A version in flight links to the newest that is committed.
  pub flying-newest :
      (v : ℕ)
      → IsFlying (t.versions v)
      → (p : ℕ) × ((t.versions v).committed_prev ≡ some p)
        × ((u : ℕ) → IsCommitted (t.versions u) → (t.versions u).cstamp ≤ (t.versions v).began)
  flying-newest v f = go (t.versions v).committed_prev refl
    where
      go :
          (q : Option ℕ)
          → (t.versions v).committed_prev ≡ q
          → (p : ℕ) × ((t.versions v).committed_prev ≡ some p)
            × ((u : ℕ) → IsCommitted (t.versions u) → (t.versions u).cstamp ≤ (t.versions v).began)
      go none e = absurd (not_both (t.versions v).status (o.first v e).0 f)
      go (some p) e = (
        p,
        e,
        λ u h. omega (
          arith,
          (o.linked v p e).2,
          o.newest p u (inr (ground (arith, f, o.flying v f), ground (arith, e, o.flying v f))) h,
        ),
      )

  module _ (v₀ : ℕ) (v' : Version) (f : IsFlying (t.versions v₀))
      (same_prev : v'.committed_prev ≡ (t.versions v₀).committed_prev)
      (same_began : v'.began ≡ (t.versions v₀).began)
      (commits : IsCommitted v' → (v'.began ≤ v'.cstamp) × (v'.cstamp ≤ c)) where
    abbrev vs' : ℕ → Version
    vs' = assign t.versions v₀ v'

    here : v₀ ≡ t.latest
    here = o.flying v₀ f

    bound : (u : ℕ) → IsCommitted (t.versions u) → (t.versions u).cstamp ≤ (t.versions v₀).began
    bound = (flying-newest v₀ f).2

    pub store-IsOrdered : IsOrdered a c (record t { versions = vs' })
    store-IsOrdered = record {
      fresh = λ v le. ground (arith, f, o.fresh v le);
      latest = o.latest;
      first = λ v e. ground (arith, f, e, same_prev, o.first v, not_both (t.versions v₀).status);
      linked = λ v p e.
          ground
            (arith, f, e, same_prev, same_began, o.linked v p, not_both (t.versions v₀).status);
      stamped = λ v h. ground (arith, h, commits, o.stamped v);
      flying = λ v h. ground (arith, h, f, o.flying v, o.flying v₀);
      newest = λ p u top h. ground (
        arith,
        f,
        top,
        h,
        here,
        same_prev,
        same_began,
        commits,
        bound u,
        o.newest p u,
        o.linked v₀ p,
        not_both (t.versions v₀).status,
      );
      apart = λ u v hu hv ne.
          ground (arith, f, hu, hv, ne, same_began, commits, bound u, bound v, o.apart u v);
    }

  module _ (p : ℕ) (d : Version) (flies : IsFlying d) (links : d.committed_prev ≡ some p)
      (top : IsTop t.versions t.latest p) (committed : IsCommitted (t.versions p))
      (past : (t.versions p).cstamp ≤ d.began)
      (quiet : is_in_flight (t.versions t.latest).status ≡ false) where
    p-lt : p < a
    p-lt = ground (arith, committed, o.fresh p)

    pub publish-IsOrdered :
        IsOrdered (suc a) c (record { latest = a; versions = assign t.versions a d })
    publish-IsOrdered = record {
      fresh = λ v le. ground (arith, o.fresh v);
      latest = omega arith;
      first = λ v e. ground (arith, e, links, o.first v);
      linked = λ v q e. ground (arith, e, links, p-lt, past, committed, o.linked v q);
      stamped = λ v h. ground (arith, h, flies, not_both d.status, o.stamped v);
      flying = λ v h. ground (arith, h, o.flying v, quiet);
      newest = λ q u t' h.
          ground (arith, t', h, p-lt, flies, not_both d.status, links, o.newest p u top);
      apart = λ u v hu hv ne. ground (arith, hu, hv, ne, flies, not_both d.status, o.apart u v);
    }

  -- Elsewhere more versions are allocated, or `CCtr` counts on.
  pub IsOrdered-later : (a' c' : ℕ) → a ≤ a' → c ≤ c' → IsOrdered a' c' t
  IsOrdered-later a' c' la lc = record {
    fresh = λ v le. o.fresh v (omega (arith, la, le));
    latest = omega (arith, o.latest, la);
    first = o.first;
    linked = λ v p e. let (lt, done, le) = o.linked v p e in (omega (arith, lt, la), done, le);
    stamped = λ v h. omega (arith, o.stamped v h, lc);
    flying = o.flying;
    newest = o.newest;
    apart = o.apart;
  }
