-- ===== src/Topology/Create/Fresh.antt =====
-- internal/topology/create.go: when a volume is fresh, and whose volume is left in place.
use garm_provider_docker.Base.{
  String, Bool, true, false, some, Option, Labels, label, with_label, Result, ok, err, not_found,
  ◌==◌, ◌≡◌, ◌≢◌, ◌⊎◌, inl, inr, refl, sym, ap, arith, eq_iff, bool_false,
}
use garm_provider_docker.Spec.Labels.{label_create_nonce}
use garm_provider_docker.Topology.Create.{
  Store, create_fresh_volume, created_fresh, fresh_or, replace_if, replaced, recreated,
  owns_volume_for_replacement,
}

module _ (S : Store) (controller_id name nonce : String) (want : Labels) (w : S.World) where
  -- The state in front of the last create: the first one, or the one that the removal of a volume left
  -- that the first create returned with another nonce and that is this allocation's.
  abbrev pub Cleared : S.World → Type 0
  Cleared v =
      (v ≡ w)
      ⊎ ((got : Labels) × ((S.volume_create name want w).0 ≡ ok got)
          × (label got label_create_nonce ≢ nonce)
          × (owns_volume_for_replacement controller_id got want ≡ true)
          × (v ≡ (S.volume_remove name (S.volume_create name want w).1).1))

  -- The last call created the volume and returned labels that carry the nonce.
  abbrev pub FreshlyMade : S.World → Type 0
  FreshlyMade last =
      (v : S.World) × Cleared v
      × ((got : Labels) × (S.volume_create name want v ≡ (ok got, last))
          × (label got label_create_nonce ≡ nonce))

  abbrev IfOk : Result (Unit {0}) × S.World → Type 0
  IfOk r = r.0 ≡ ok tt → FreshlyMade r.1

  recreated-Fresh :
      (v : S.World) (made : Result Labels) (last : S.World)
      → Cleared v
      → S.volume_create name want v ≡ (made, last)
      → IfOk (recreated S controller_id nonce made last)
  recreated-Fresh v (err e) last c m = λ h. ground (arith, h)
  recreated-Fresh v (ok got) last c m =
      λ h. (v, c, (got, m, ground (arith, h, eq_iff (label got label_create_nonce) nonce)))

  replaced-Fresh :
      (removal : Result (Unit {0})) (v : S.World)
      → Cleared v
      → IfOk (replaced S controller_id name want nonce removal v)
  replaced-Fresh (ok u) v c = recreated-Fresh v (S.volume_create name want v).0 _ c refl
  replaced-Fresh (err not_found) v c = recreated-Fresh v (S.volume_create name want v).0 _ c refl
  replaced-Fresh (err e) v c = λ h. ground (arith, h)

  created-Fresh :
      (made : Result Labels) (w1 : S.World)
      → S.volume_create name want w ≡ (made, w1)
      → IfOk (created_fresh S controller_id name want nonce made w1)
  created-Fresh (err e) w1 m = λ h. ground (arith, h)
  created-Fresh (ok got) w1 m =
      either (label got label_create_nonce == nonce)
        (owns_volume_for_replacement controller_id got want) refl refl
    where
      either :
          (a b : Bool)
          → (label got label_create_nonce == nonce) ≡ a
          → owns_volume_for_replacement controller_id got want ≡ b
          → IfOk (fresh_or S controller_id a w1 (replace_if S controller_id b name want nonce w1))
      either true b e f =
          λ h. (w, inl refl, (got, m, (eq_iff (label got label_create_nonce) nonce).0 e))
      either false false e f = λ h. ground (arith, h)
      either false true e f =
          replaced-Fresh (S.volume_remove name w1).0 (S.volume_remove name w1).1 (
            inr (
              got,
              ap (λ p. p.0) m,
              (λ n. ground (arith, e, n, eq_iff (label got label_create_nonce) nonce)),
              f,
              ap (λ v. (S.volume_remove name v).1) (sym (ap (λ p. p.1) m)),
            ))

-- When createFreshVolume succeeds, its last call was a create that returned labels with this attempt's
-- create nonce; in front of that it made no call, or only the create that returned a volume with
-- another nonce that is fully this allocation's, and that volume's removal.
pub create_fresh_volume-FreshlyMade :
    (S : Store) (controller_id name nonce : String) (labels : Labels) (w : S.World)
    → (create_fresh_volume S controller_id name labels nonce w).0 ≡ ok tt
    → FreshlyMade S controller_id name nonce
        (with_label labels label_create_nonce nonce)
        w
        (create_fresh_volume S controller_id name labels nonce w).1
unfolding create_fresh_volume
create_fresh_volume-FreshlyMade S controller_id name nonce labels w h =
    created-Fresh S controller_id name nonce (with_label labels label_create_nonce nonce) w _ _ refl
      h

-- If a volume is there under the name, with another nonce and not fully this allocation's, then, where
-- a create call keeps it and returns no labels but its own, createFreshVolume fails, whatever else the
-- daemon answers, and the volume is still there.
pub create_fresh_volume-refuses :
    (S : Store) (controller_id name nonce : String) (labels : Labels) (w : S.World)
    (view : S.World → Option Labels) (l : Labels)
    → view w ≡ some l
    → ((want : Labels) (v : S.World)
        → view v ≡ some l
        → view (S.volume_create name want v).1 ≡ some l)
    → ((want got : Labels) (v : S.World)
        → view v ≡ some l
        → (S.volume_create name want v).0 ≡ ok got
        → got ≡ l)
    → label l label_create_nonce ≢ nonce
    → owns_volume_for_replacement controller_id l (with_label labels label_create_nonce nonce)
      ≡ false
    → ((create_fresh_volume S controller_id name labels nonce w).0 ≢ ok tt)
      × (view (create_fresh_volume S controller_id name labels nonce w).1 ≡ some l)
unfolding create_fresh_volume
create_fresh_volume-refuses S controller_id name nonce labels w view l there keeps returns other
      foreign =
    answered (S.volume_create name (with_label labels label_create_nonce nonce) w).0 _
      (λ got e. returns _ got w there e) (keeps _ w there)
  where
    answered :
        (made : Result Labels) (w1 : S.World)
        → ((got : Labels) → made ≡ ok got → got ≡ l)
        → view w1 ≡ some l
        → ((created_fresh S controller_id name
              (with_label labels label_create_nonce nonce)
              nonce
              made
              w1).0
            ≢ ok tt)
          × (view
                (created_fresh S controller_id name
                  (with_label labels label_create_nonce nonce)
                  nonce
                  made
                  w1).1
              ≡ some l)
    answered (err e) w1 same k = (λ h. ground (arith, h), k)
    answered (ok got) w1 same k =
        let is_l : got ≡ l = same got refl in
        rw
          (
            is_l,
            bool_false (label l label_create_nonce == nonce)
                (λ e. other ((eq_iff (label l label_create_nonce) nonce).0 e)),
            foreign,
          )
          (λ h. ground (arith, h), k)
