-- ===== src/Metric/Server/Listed.antt =====
-- Which proxies a report lists, pkg/metrics/mem/server.go.
use chml_frp_frp.Prelude.{
  ℕ, String, ◌≡◌, refl, sym, ap, ◌∙◌, Bool, true, false, Option, none, some, List, [], ◌∷◌, map,
  keep, arith, inl, inr, str_eq, eq_iff, Bool-cases, Option-cases, All,
}
use chml_frp_frp.Metric.Server.{ProxyStatistics, ServerStatistics, put}
use chml_frp_frp.Metric.Server.Listing.{
  ProxyStats, proxy_stats, of_kind, report, get_proxies_by_type,
}

abbrev pub name_of : ProxyStats → String
name_of ps = ps.name

module _ (format : ℕ → String) (day : ℕ) (kind : String) where
  abbrev is_of : ServerStatistics → String → Bool
  is_of m y = of_kind format day kind (m.proxy_statistics y)

  abbrev reported : String → ServerStatistics → ProxyStatistics → ServerStatistics
  reported x m s = record m {
    proxy_statistics = put x (some (proxy_stats format day x s).1) m.proxy_statistics;
  }

  -- The two outcomes of a round.
  report-one :
      (x : String) (m : ServerStatistics) (s : ProxyStatistics)
      → m.proxy_statistics x ≡ some s
      → str_eq s.proxy_type kind ≡ true
      → report format day kind x m ≡ (some (proxy_stats format day x s).0, reported x m s)
  report-one x m s e k = rw (report, e, k) refl

  report-none :
      (x : String) (m : ServerStatistics)
      → is_of m x ≡ false
      → report format day kind x m ≡ (none, m)
  report-none x m h = elim (Option-cases (m.proxy_statistics x)) [
    | inl e ↦ rw (report, e) refl
    | inr (s, e) ↦ rw (report, e, ap (of_kind format day kind) (sym e) ∙ h) refl
  ]

  reported_keeps :
      (x y : String) (m : ServerStatistics) (s : ProxyStatistics)
      → m.proxy_statistics x ≡ some s
      → is_of (reported x m s) y ≡ is_of m y
  unfolding proxy_stats
  reported_keeps x y m s e = elim (Bool-cases (str_eq y x)) [
    | inl k ↦ rw (k, ap m.proxy_statistics ((eq_iff y x).0 k) ∙ e) refl
    | inr k ↦ rw (k) refl
  ]

  found :
      (x : String) (m : ServerStatistics)
      → is_of m x ≡ true
      → (s : ProxyStatistics) × (m.proxy_statistics x ≡ some s) × (str_eq s.proxy_type kind ≡ true)
  found x m h = elim (Option-cases (m.proxy_statistics x)) [
    | inl e ↦ absurd (ground (arith, ap (of_kind format day kind) (sym e) ∙ h))
    | inr (s, e) ↦ (s, e, ap (of_kind format day kind) (sym e) ∙ h)
  ]

  abbrev Lists : (String → Bool) → List String → ServerStatistics → Type 0
  Lists q xs m =
      (map name_of (get_proxies_by_type format day kind xs m).0 ≡ keep q xs)
      × All (λ (ps : ProxyStats). ps.kind ≡ kind) (get_proxies_by_type format day kind xs m).0

  abbrev after_round :
      List String → Option ProxyStats × ServerStatistics → List ProxyStats × ServerStatistics
  after_round xs (first, m1) =
      let (rest, m2) = get_proxies_by_type format day kind xs m1 in
      (elim first [ none ↦ rest | some ps ↦ ps ∷ rest ], m2)

  first_round :
      (x : String) (xs : List String) (m : ServerStatistics)
      (outcome : Option ProxyStats × ServerStatistics)
      → report format day kind x m ≡ outcome
      → get_proxies_by_type format day kind (x ∷ xs) m ≡ after_round xs outcome
  unfolding get_proxies_by_type
  first_round x xs m outcome e = ap (after_round xs) e

  Lists-one :
      (q : String → Bool) (x : String) (xs : List String) (m : ServerStatistics)
      (s : ProxyStatistics)
      → m.proxy_statistics x ≡ some s
      → str_eq s.proxy_type kind ≡ true
      → q x ≡ true
      → Lists q xs (reported x m s)
      → Lists q (x ∷ xs) m
  unfolding get_proxies_by_type proxy_stats
  Lists-one q x xs m s e k of (names, kinds) = rw (first_round x xs m _ (report-one x m s e k)) (
    ap (λ (ns : List String). x ∷ ns) names ∙ rw (keep, of) refl,
    ((eq_iff s.proxy_type kind).0 k, kinds),
  )

  Lists-none :
      (q : String → Bool) (x : String) (xs : List String) (m : ServerStatistics)
      → is_of m x ≡ false
      → q x ≡ false
      → Lists q xs m
      → Lists q (x ∷ xs) m
  unfolding get_proxies_by_type
  Lists-none q x xs m none_of other lists =
      rw (first_round x xs m _ (report-none x m none_of)) (lists.0 ∙ rw (keep, other) refl, lists.1)

  Lists-as :
      (q : String → Bool) (xs : List String) (m : ServerStatistics)
      → ((y : String) → is_of m y ≡ q y)
      → Lists q xs m
  unfolding get_proxies_by_type
  Lists-as q [] m h = (refl, tt)
  Lists-as q (x ∷ xs) m h = elim (Bool-cases (is_of m x)) [
    | inr other ↦ Lists-none q x xs m other (sym (h x) ∙ other) (Lists-as q xs m h)
    | inl of ↦
        let (s, e, k) = found x m of in
        Lists-one q x xs m s e k (sym (h x) ∙ of)
          (Lists-as q xs (reported x m s) (λ y. reported_keeps x y m s e ∙ h y))
  ]

-- For the keys of the statistics in any order: the report of a type lists the proxies of the type
-- under their keys, in that order, and no others.
pub get_proxies_by_type-keep :
    (format : ℕ → String) (day : ℕ) (kind : String) (xs : List String) (m : ServerStatistics)
    → (map name_of (get_proxies_by_type format day kind xs m).0
        ≡ keep (λ (x : String). of_kind format day kind (m.proxy_statistics x)) xs)
      × All (λ (ps : ProxyStats). ps.kind ≡ kind) (get_proxies_by_type format day kind xs m).0
get_proxies_by_type-keep format day kind xs m =
    Lists-as format day kind (is_of format day kind m) xs m (λ y. refl)
