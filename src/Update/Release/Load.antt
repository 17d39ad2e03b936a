-- ===== src/Update/Release/Load.antt =====
-- What a release file must hold, and what loading it gives.
use mathlib.Core.Path.{subst}
use mathlib.Core.List.{Memᴰ}
use hadron_desktop.Base.{
  ◌≡◌, sym, ap, ◌↔◌, ◌≢◌, refl, true, List, [], ◌∷◌, arith, Bool-cases, ◌⊎◌, inl, inr,
}
use hadron_desktop.Base.Text.{Text, text, Dict, get, text_eq_iff, is_empty, is_empty_iff}
use hadron_desktop.Update.Release.Lines.{ReadsFile, read_kv-ReadsFile}
use hadron_desktop.Update.Release.{
  Release, File, Loaded, ok, err, gpu_full, gpu_vm, Key, flavor_key, version_key, image_repo_key,
  github_repo_key, key_value, check_keys, check_release, is_gpu, read_kv, of_dict, load_dict,
  load_release,
}

-- An order in which the range over the four keys may visit them.
pub record IsOrder (order : List Key) : Type 0 where
  pub visits : (k : Key) → Memᴰ k order

pub record IsComplete (r : Release) : Type 0 where
  pub flavor_set : r.flavor ≢ []
  pub version_set : r.version ≢ []
  pub image_repo_set : r.image_repo ≢ []
  pub github_repo_set : r.github_repo ≢ []
  pub gpu_line : (r.gpu ≡ []) ⊎ (r.gpu ≡ gpu_full) ⊎ (r.gpu ≡ gpu_vm)

-- The fields of a release are what the file says under their names.
pub record Says (kv : Dict) (r : Release) : Type 0 where
  pub flavor_says : r.flavor ≡ get kv (text "FLAVOR")
  pub version_says : r.version ≡ get kv (text "VERSION")
  pub hadron_version_says : r.hadron_version ≡ get kv (text "HADRON_VERSION")
  pub image_repo_says : r.image_repo ≡ get kv (text "IMAGE_REPO")
  pub github_repo_says : r.github_repo ≡ get kv (text "GITHUB_REPO")
  pub gpu_says : r.gpu ≡ get kv (text "GPU")

of_dict-Says : (kv : Dict) (r : Release) → (of_dict kv ≡ r) ↔ Says kv r
unfolding of_dict
of_dict-Says kv r = (
  λ e. record {
    flavor_says = sym (ap (λ (x : Release). x.flavor) e);
    version_says = sym (ap (λ (x : Release). x.version) e);
    hadron_version_says = sym (ap (λ (x : Release). x.hadron_version) e);
    image_repo_says = sym (ap (λ (x : Release). x.image_repo) e);
    github_repo_says = sym (ap (λ (x : Release). x.github_repo) e);
    gpu_says = sym (ap (λ (x : Release). x.gpu) e);
  },
  λ s. cc (
    s.flavor_says, s.version_says, s.hadron_version_says, s.image_repo_says, s.github_repo_says,
    s.gpu_says,
  ),
)

set_keys : (r : Release) → IsComplete r → (k : Key) → key_value k r ≢ []
set_keys r c flavor_key = c.flavor_set
set_keys r c version_key = c.version_set
set_keys r c image_repo_key = c.image_repo_set
set_keys r c github_repo_key = c.github_repo_set

is_gpu_iff : (g : Text) → (is_gpu g ≡ true) ↔ ((g ≡ []) ⊎ (g ≡ gpu_full) ⊎ (g ≡ gpu_vm))
unfolding is_gpu
is_gpu_iff g = ground (arith, is_empty_iff g, text_eq_iff g gpu_full, text_eq_iff g gpu_vm)

check_keys_sound :
    (order : List Key) (r s : Release)
    → check_keys order r ≡ ok s
    → (r ≡ s) × ((k : Key) → Memᴰ k order → key_value k r ≢ [])
unfolding check_keys
check_keys_sound [] r s h = (ground arith, λ k m. elim m [ ])
check_keys_sound (j ∷ order) r s h = elim (Bool-cases (is_empty (key_value j r))) [
  | inl e ↦ absurd (cc (rw e at h))
  | inr e ↦
      let (same, later) = check_keys_sound order r s (rw e at h) in
      (same, λ k m. filled k m (λ p. cc ((is_empty_iff (key_value j r)).1 p)) later)
]
  where
    filled :
        (k : Key)
        → Memᴰ k (j ∷ order)
        → key_value j r ≢ []
        → ((i : Key) → Memᴰ i order → key_value i r ≢ [])
        → key_value k r ≢ []
    filled k (Memᴰ.head p) n later = rw p n
    filled k (Memᴰ.tail m) n later = later k m

check_keys_complete :
    (order : List Key) (r : Release) → ((k : Key) → key_value k r ≢ []) → check_keys order r ≡ ok r
unfolding check_keys
check_keys_complete [] r h = refl
check_keys_complete (k ∷ order) r h =
    ground (arith, is_empty_iff (key_value k r), h k, check_keys_complete order r h)

check_release_sound :
    (order : List Key) (r s : Release)
    → IsOrder order
    → check_release order r ≡ ok s
    → (r ≡ s) × IsComplete r
unfolding check_release
check_release_sound order r s every h = elim (Bool-cases (is_gpu r.gpu)) [
  | inr e ↦ absurd (cc (rw e at h))
  | inl e ↦
      let (same, filled) = check_keys_sound order r s (rw e at h) in
      (
        same,
        record {
          flavor_set = filled flavor_key (every.visits flavor_key);
          version_set = filled version_key (every.visits version_key);
          image_repo_set = filled image_repo_key (every.visits image_repo_key);
          github_repo_set = filled github_repo_key (every.visits github_repo_key);
          gpu_line = (is_gpu_iff r.gpu).0 e;
        },
      )
]

check_release_complete :
    (order : List Key) (r s : Release) → r ≡ s → IsComplete s → check_release order r ≡ ok s
unfolding check_release
check_release_complete order r s same complete = rw same (
    rw ((is_gpu_iff s.gpu).1 complete.gpu_line) (check_keys_complete order s (set_keys s complete)))

load_dict_iff :
    (order : List Key) (r : Release)
    → IsOrder order
    → (o : Loaded Dict)
    → (load_dict order o ≡ ok r) ↔ ((kv : Dict) × (o ≡ ok kv) × Says kv r × IsComplete r)
unfolding load_dict
load_dict_iff order r every (err e) = (λ h. cc, λ h. absurd (cc (h.1)))
load_dict_iff order r every (ok kv) = (
  λ h.
      let (same, complete) = check_release_sound order (of_dict kv) r every h in
      (kv, refl, (of_dict-Says kv r).0 same, subst IsComplete same complete),
  λ (kv', e, says, complete).
      let same = (of_dict-Says kv' r).1 says in
      check_release_complete order (of_dict kv) r (cc (same, e)) complete,
)

-- A release file loads exactly if it can be read without a line that is too long, its image line is empty, full or vm, and its
-- flavor, version, image repository and GitHub repository are set; each field of the result is what
-- the file says under its name.
-- The order in which the range over the keys visits them does not matter.
pub load_release_iff :
    (order : List Key) (f : File) (r : Release)
    → IsOrder order
    → (load_release order f ≡ ok r) ↔ ((kv : Dict) × ReadsFile f kv × Says kv r × IsComplete r)
unfolding load_release
load_release_iff order f r every =
    let loads = load_dict_iff order r every (read_kv f) in
    (
      λ h.
          let (kv, e, says, complete) = loads.0 h in
          (kv, (read_kv-ReadsFile f kv).0 e, says, complete),
      λ (kv, reads, says, complete). loads.1 (kv, (read_kv-ReadsFile f kv).1 reads, says, complete),
    )
