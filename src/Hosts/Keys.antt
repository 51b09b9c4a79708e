-- ===== src/Hosts/Keys.antt =====
-- `normalize_hosts` of lib.rs as the key of a seed list: idempotent, and the same for two lists exactly
-- when they name the same seeds.
use aerospike_php_client.Common.{
  ◌≡◌, refl, ◌∙◌, sym, ap, ◌↔◌, inl, inr, List, [], ◌∷◌, map, All, Bool-cases,
}
use aerospike_php_client.Common.Text.{Text}
use aerospike_php_client.Hosts.{
  split, trim, is_empty, non_empty, canonical, sort, dedup, join, parts, normalize_hosts,
}
use aerospike_php_client.Hosts.Parts.{
  NoComma, split-join, split-NoComma, trim-All, trim-StartsSolid,
}
use aerospike_php_client.Hosts.Seeds.{
  Seed, canonical-Seed, Seed-trim, Seed-not-empty, Seed-canonical, Seed-NoComma,
}
use aerospike_php_client.Hosts.Unique.{mem, sort-All, dedup-All, mem-dedup-sort, dedup-sort-ext}

collect-Seed : (l : List Text) → All NoComma l → All Seed (map canonical (non_empty (map trim l)))
unfolding non_empty
collect-Seed [] h = tt
collect-Seed (x ∷ l) h = elim (Bool-cases (is_empty (trim x))) [
  | inl e ↦ rw e (collect-Seed l h.1)
  | inr n ↦
      rw n (canonical-Seed (trim x) (trim-StartsSolid x n) (trim-All _ x h.0), collect-Seed l h.1)
]

parts-Seed : (hosts : Text) → All Seed (parts hosts)
unfolding parts
parts-Seed hosts = collect-Seed (split hosts) (split-NoComma hosts)

collect_self : (l : List Text) → All Seed l → map canonical (non_empty (map trim l)) ≡ l
unfolding non_empty
collect_self [] h = refl
collect_self (x ∷ l) h =
    rw (Seed-trim h.0, Seed-not-empty h.0, Seed-canonical h.0, collect_self l h.1)

Seeds-NoComma : (l : List Text) → All Seed l → All NoComma l
Seeds-NoComma [] h = tt
Seeds-NoComma (x ∷ l) h = (Seed-NoComma h.0, Seeds-NoComma l h.1)

parts-join : (l : List Text) → All Seed l → parts (join l) ≡ l
unfolding parts join split non_empty trim
parts-join [] h = refl
parts-join (x ∷ l) h = rw (split-join x l (Seeds-NoComma (x ∷ l) h)) (collect_self (x ∷ l) h)

-- The parts of a key are those of the seed list, sorted and without repetition.
parts-normalize_hosts : (hosts : Text) → parts (normalize_hosts hosts) ≡ dedup (sort (parts hosts))
unfolding normalize_hosts
parts-normalize_hosts hosts = parts-join _ (dedup-All Seed _ (sort-All Seed _ (parts-Seed hosts)))

-- To normalise a key changes nothing.
pub normalize_hosts_idem :
    (hosts : Text) → normalize_hosts (normalize_hosts hosts) ≡ normalize_hosts hosts
unfolding normalize_hosts
normalize_hosts_idem hosts =
    ap (λ l. join (dedup (sort l))) (parts-normalize_hosts hosts)
    ∙ ap join (
        dedup-sort-ext (dedup (sort (parts hosts))) (parts hosts)
          (λ p. mem-dedup-sort p (parts hosts)))

-- Two seed lists have the same key exactly when each names the same canonical seeds, in any order
-- and however often.
pub normalize_hosts_iff :
    (hosts hosts' : Text)
    → (normalize_hosts hosts ≡ normalize_hosts hosts')
      ↔ ((p : Text) → mem p (parts hosts) ≡ mem p (parts hosts'))
unfolding normalize_hosts
normalize_hosts_iff hosts hosts' = (
  (λ e p.
      sym (mem-dedup-sort p (parts hosts))
      ∙ ap (mem p) (sym (parts-normalize_hosts hosts) ∙ ap parts e ∙ parts-normalize_hosts hosts')
      ∙ mem-dedup-sort p (parts hosts')),
  λ h. ap join (dedup-sort-ext (parts hosts) (parts hosts') h),
)
