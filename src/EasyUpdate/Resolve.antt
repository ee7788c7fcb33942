-- ===== src/EasyUpdate/Resolve.antt =====
-- The target of a call of Easy Update (custom_components/hubinet_ops/easy_update.py).
use hubinet_ops_next.Prelude.{
  ℕ, ◌≡◌, sym, ◌∙◌, subst, inl, inr, Bool, true, not, ◌&&◌, ◌||◌, Option, none, some, List, [], ◌∷◌,
  ◌++◌, arith, Text, codes, text_eq, if◌then◌else◌, is_empty, any, Option-cases, Bool-cases,
}
use hubinet_ops_next.Prelude.Results.{Result, ok, err}
use hubinet_ops_next.Dict.{Key}
use hubinet_ops_next.EasyUpdate.Follow.{IsAmong}

-- The data of a node: its name and the containers that are shown on it.
pub record Node : Type 0 where
  pub name : Text
  pub containers : List ℕ

-- A config entry: whether it is there, of this domain and loaded, whether its package manager is
-- configured, the data of its coordinator and the node of its packages.
pub record Entry : Type 0 where
  pub entry_id : Text
  pub is_loaded : Bool
  pub configured : Bool
  pub nodes : List (Text × Node)
  pub package_node : Text

-- A device: its entries, and its identifiers, a domain and a text each.
pub record Device : Type 0 where
  pub entries : List Entry
  pub identifiers : List (Text × Text)

unfoldable pub node_of : Text → List (Text × Node) → Option Node
node_of k [] = none
node_of k ((j, n) ∷ ns) = if text_eq j k then some n else node_of k ns

module _ (str : ℕ → Text) (d : Device) where
  -- `(DOMAIN, f"{entry.entry_id}_container_{vmid}") in device.identifiers`
  unfoldable pub identifies : Entry → ℕ → Bool
  identifies e vmid =
      any
        (λ (i : Text × Text).
          text_eq i.0 (codes "hubinet_ops")
          && text_eq i.1 (e.entry_id ++ (codes "_container_" ++ str vmid)))
        d.identifiers

  -- The first container of an entry that the device is.
  unfoldable pub container_of : Entry → List ℕ → Option ℕ
  container_of e [] = none
  container_of e (v ∷ vs) = let rest = container_of e vs in if identifies e v then some v else rest

  abbrev on_node : Entry → Option Node → Option Key
  on_node e none = none
  on_node e (some n) = elim (container_of e n.containers) [
    | none ↦ none
    | some v ↦ some (record { node = n.name; vmid = v })
  ]

  unfoldable pub target_in : Entry → Option Key
  unfolding node_of container_of
  target_in e =
      if not e.is_loaded
      then none
      else if not e.configured || is_empty e.nodes
      then none
      else on_node e (node_of e.package_node e.nodes)

  unfoldable pub first_target : List Entry → Option (Entry × Key)
  unfolding target_in
  first_target [] = none
  first_target (e ∷ es) =
      let rest = first_target es in elim (target_in e) [ none ↦ rest | some k ↦ some (e, k) ]

abbrev found : Option (Entry × Key) → Result Text (Entry × Key)
found none = err (codes "easy_update_not_package_lxc")
found (some t) = ok t

-- `async_resolve_target`, of the device with this id
unfoldable pub resolve_target : (ℕ → Text) → Option Device → Result Text (Entry × Key)
unfolding first_target
resolve_target str none = err (codes "easy_update_unknown_device")
resolve_target str (some d) = found (first_target str d d.entries)

module _ (str : ℕ → Text) (d : Device) where
  -- A container that is found has its identifier among the device's.
  container_of-identifies :
      (e : Entry) (vs : List ℕ) (v : ℕ)
      → container_of str d e vs ≡ some v
      → IsAmong v vs × (identifies str d e v ≡ true)
  unfolding container_of
  container_of-identifies e [] v = λ h. cc
  container_of-identifies e (w ∷ vs) v = elim (Bool-cases (identifies str d e w)) [
    | inl t ↦ rw t λ h.
        let same : w ≡ v = cc in
        (inl (sym same), subst (λ (x : ℕ). identifies str d e x ≡ true) same t)
    | inr f ↦ rw f λ h. let (among, same) = container_of-identifies e vs v h in (inr among, same)
  ]

  -- A target that is found is that of one of the device's entries.
  first_target-target_in :
      (es : List Entry) (e : Entry) (k : Key)
      → first_target str d es ≡ some (e, k)
      → IsAmong e es × (target_in str d e ≡ some k)
  unfolding first_target
  first_target-target_in [] e k = λ h. cc
  first_target-target_in (x ∷ es) e k = elim (Option-cases (target_in str d x)) [
    | inl t ↦
        rw (t, first_target)
          λ h. let (among, same) = first_target-target_in es e k h in (inr among, same)
    | inr (j, t) ↦ rw (t, first_target) λ h. let same : x ≡ e = cc in (inl (sym same), cc)
  ]

  -- An entry that gives a target is loaded, and its package manager is configured.
  target_in-is_loaded :
      (e : Entry) (k : Key)
      → target_in str d e ≡ some k
      → (e.is_loaded ≡ true) × (e.configured ≡ true)
  unfolding target_in
  target_in-is_loaded e k h = (ground arith, ground arith)

-- A target that is resolved is of an entry of the device that is loaded and has a configured package
-- manager.
resolve_target-is_loaded :
    (str : ℕ → Text) (d : Device) (e : Entry) (k : Key)
    → resolve_target str (some d) ≡ ok (e, k)
    → IsAmong e d.entries × (e.is_loaded ≡ true) × (e.configured ≡ true)
unfolding resolve_target
resolve_target-is_loaded str d e k = elim (Option-cases (first_target str d d.entries)) [
  | inl t ↦ rw t λ h. cc
  | inr ((x, j), t) ↦ rw t λ h.
      let (among, same) = first_target-target_in str d d.entries e k (t ∙ cc) in
      let (loaded, configured) = target_in-is_loaded str d e k same in (among, loaded, configured)
]
