-- ===== src/Checks/Daemon.antt =====
-- A daemon with room for one container, one network and one volume, which keeps Docker's promises.
use garm_provider_docker.Base.{
  String, Bool, true, false, ◌&&◌, List, [], ◌∷◌, Option, none, some, Labels, Result, ok, err,
  not_found, All, ◌≡◌, inl, refl, sym, subst, arith, label, has_label, ◌==◌, eq_iff, if◌then◌else◌,
}
use garm_provider_docker.Docker.Filters.{LabelFilter, has_key, has_value, Satisfies}
use garm_provider_docker.Docker.Client.{
  Kind, container, network, volume, Resource, Client, ClientLaws, Undisturbed, Listed,
}

pub record Slots : Type 0 where
  pub c : Option Labels
  pub n : Option Labels
  pub v : Option Labels

abbrev pub slot : Kind → Slots → Option Labels
slot container s = s.c
slot network s = s.n
slot volume s = s.v

abbrev clear : Kind → Slots → Slots
clear container s = record s { c = none }
clear network s = record s { n = none }
clear volume s = record s { v = none }

abbrev pub satisfies : Labels → List LabelFilter → Bool
satisfies l [] = true
satisfies l (has_key k ∷ fs) = has_label l k && satisfies l fs
satisfies l (has_value k v ∷ fs) = has_label l k && label l k == v && satisfies l fs

pub satisfies_sound : (l : Labels) (fs : List LabelFilter) → satisfies l fs ≡ true → Satisfies l fs
satisfies_sound l [] h = tt
satisfies_sound l (has_key k ∷ fs) h = (ground arith, satisfies_sound l fs (ground arith))
satisfies_sound l (has_value k v ∷ fs) h =
    (ground arith, ground (arith, eq_iff (label l k) v), satisfies_sound l fs (ground arith))

pub satisfies_complete :
    (l : Labels) (fs : List LabelFilter) → Satisfies l fs → satisfies l fs ≡ true
satisfies_complete l [] s = refl
satisfies_complete l (has_key k ∷ fs) (a, s) = ground (arith, a, satisfies_complete l fs s)
satisfies_complete l (has_value k v ∷ fs) (a, b, s) =
    ground (arith, a, b, eq_iff (label l k) v, satisfies_complete l fs s)

abbrev pub entries : List LabelFilter → Option Labels → List Resource
entries fs none = []
entries fs (some l) = if satisfies l fs then record { id = "it"; labels = l } ∷ [] else []

abbrev pub view : Slots → Kind → String → Option Labels
view s K j = if j == "it" then slot K s else none

abbrev discard : Kind → String → Slots → Result (Unit {0}) × Slots
discard K i s = if i == "it" then (ok tt, clear K s) else (err not_found, s)

abbrev pub daemon : Client
daemon = record {
  World = Slots;
  list = λ K fs s. (ok (entries fs (slot K s)), s);
  remove = discard;
  remove_with_volumes = λ i s. discard container i s;
  stop = λ i s. (ok tt, s);
}

listed_if :
    (s : Slots) (K : Kind) (l : Labels) (fs : List LabelFilter) (b : Bool)
    → (b ≡ true → (view s K "it" ≡ some l) × Satisfies l fs)
    → All
        (λ (r : Resource). (view s K r.id ≡ some r.labels) × Satisfies r.labels fs)
        (if b then record { id = "it"; labels = l } ∷ [] else [])
listed_if s K l fs true p = (p refl, tt)
listed_if s K l fs false p = tt

pub entries_sound :
    (fs : List LabelFilter) (s : Slots) (K : Kind) (o : Option Labels)
    → slot K s ≡ o
    → All (λ r. (view s K r.id ≡ some r.labels) × Satisfies r.labels fs) (entries fs o)
entries_sound fs s K none e = tt
entries_sound fs s K (some l) e =
    listed_if s K l fs (satisfies l fs) (λ h. (e, satisfies_sound l fs h))

pub entries_complete :
    (fs : List LabelFilter) (j : String) (l : Labels) (o : Option Labels)
    → (if j == "it" then o else none) ≡ some l
    → Satisfies l fs
    → Listed j l (entries fs o)
entries_complete fs j l none at s = ground arith
entries_complete fs j l (some m) at s =
    let (here, same) = held (j == "it") m l at in
    rw (satisfies_complete m fs (subst (λ x. Satisfies x fs) (sym same) s))
      (inl (sym ((eq_iff j "it").0 here), same))
  where
    held : (b : Bool) (m l : Labels) → (if b then some m else none) ≡ some l → (b ≡ true) × (m ≡ l)
    held true m l e = (refl, cc e)
    held false m l e = ground arith

pub discard-keeps :
    (K : Kind) (i : String) (s : Slots) (J : Kind) (j : String) (l : Labels)
    → view s J j ≡ some l
    → ¬ ((K ≡ J) × (i ≡ j))
    → view (discard K i s).1 J j ≡ some l
discard-keeps container i s container j l at apart =
    ground (arith, at, eq_iff i "it", eq_iff i j, eq_iff j "it", λ (e : i ≡ j). apart (refl, e))
discard-keeps container i s network j l at apart = ground (arith, at)
discard-keeps container i s volume j l at apart = ground (arith, at)
discard-keeps network i s container j l at apart = ground (arith, at)
discard-keeps network i s network j l at apart =
    ground (arith, at, eq_iff i "it", eq_iff i j, eq_iff j "it", λ (e : i ≡ j). apart (refl, e))
discard-keeps network i s volume j l at apart = ground (arith, at)
discard-keeps volume i s container j l at apart = ground (arith, at)
discard-keeps volume i s network j l at apart = ground (arith, at)
discard-keeps volume i s volume j l at apart =
    ground (arith, at, eq_iff i "it", eq_iff i j, eq_iff j "it", λ (e : i ≡ j). apart (refl, e))

pub discard-gone : (K : Kind) (i : String) (s : Slots) → view (discard K i s).1 K i ≡ none
discard-gone container i s = ground arith
discard-gone network i s = ground arith
discard-gone volume i s = ground arith

pub same_list : (xs ys : List Resource) → ok xs ≡ ok ys → xs ≡ ys
same_list xs ys e = cc e

pub discard-none :
    (K : Kind) (i : String) (s : Slots) (J : Kind) (j : String)
    → view s J j ≡ none
    → view (discard K i s).1 J j ≡ none
discard-none container i s container j at = ground (arith, at)
discard-none container i s network j at = ground (arith, at)
discard-none container i s volume j at = ground (arith, at)
discard-none network i s container j at = ground (arith, at)
discard-none network i s network j at = ground (arith, at)
discard-none network i s volume j at = ground (arith, at)
discard-none volume i s container j at = ground (arith, at)
discard-none volume i s network j at = ground (arith, at)
discard-none volume i s volume j at = ground (arith, at)

pub not_random : ¬ (false ≡ true)
not_random e = ground (arith, e)

pub every_id : (rs : List Resource) → All (λ (r : Resource). true ≡ true) rs
every_id [] = tt
every_id (r ∷ rs) = (refl, every_id rs)

abbrev pub daemon_laws : ClientLaws daemon
daemon_laws = record {
  view = view;
  is_id = λ K i. true;
  anonymous = λ j. false;
  list_ids = λ K fs w rs e. every_id rs;
  anonymous_bare = λ w j l h random k plain. elim (not_random random) [ ];
  list_keeps = λ K fs w J j l h. h;
  list_sound = λ K fs w rs e.
      subst (All (λ (r : Resource). (view w K r.id ≡ some r.labels) × Satisfies r.labels fs))
        (same_list _ _ e) (entries_sound fs w K (slot K w) refl);
  list_complete = λ K fs w rs e j l at s.
      subst (Listed j l) (same_list _ _ e) (entries_complete fs j l (slot K w) at s);
  stop_keeps = λ i w J j l h. h;
  remove_keeps = λ K i w J j l id h apart. discard-keeps K i w J j l h apart;
  remove_with_volumes_keeps =
      λ i w J j l id named h apart. discard-keeps container i w J j l h apart;
  remove_with_volumes_gone = λ i w e. discard-gone container i w;
  remove_gone = λ K i w e. discard-gone K i w;
}

abbrev pub daemon_quiet : Undisturbed daemon daemon_laws
daemon_quiet = record {
  list_quiet = λ K fs w J j h. h;
  stop_quiet = λ i w J j h. h;
  remove_quiet = discard-none;
  remove_with_volumes_quiet = λ i w J j h. discard-none container i w J j h;
}
