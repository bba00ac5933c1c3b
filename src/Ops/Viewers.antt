-- ===== src/Ops/Viewers.antt =====
-- The requests that reach the viewers of recorded profiles: handleDeletePerformanceHistory and
-- handlePprofProxy of cmd/ops/main.go. filepath.Join and filepath.Abs, base64 and BindJSON are
-- parameters; strings.HasPrefix is the library's test.
use Prim.Native.Char.{Char, code}
use Prim.Native.String.append
use mathlib.Core.List.{append-nil}
use text.Mathlib.Text.{starts_with}
use text.Mathlib.TextEquality.{starts_with_iff}
use game_production.Common.{
  ℕ, suc, String, string_key, concat, Bool, true, false, not, ◌&&◌, ◌||◌, List, [], ◌∷◌, Dict,
  failure, wrapped, Result, ok, err, eqb, ◌≡◌, ◌≢◌, refl, sym, ap, ◌∙◌, arith, if◌then◌else◌, All,
  Bool-cases, inl, inr,
}
use game_production.Ops.Sessions.{
  Session, Manager, Launch, get_or_start, close_matching, drop, cmds_of,
}
use game_production.Ops.Folders.{has_code}
use game_production.Ops.Recordings.{Disk, Page, page, refused}

pub record Viewers (S : Type 0) : Type 0 where
  pub manager : Manager
  pub disk_state : S

-- strings.Contains for "..".
unfoldable pub has_dots : String → Bool
has_dots String.[] = false
has_dots (String.◌∷◌ c String.[]) = false
has_dots (String.◌∷◌ c (String.◌∷◌ d s)) =
    eqb (code c) b'.' && eqb (code d) b'.' || has_dots (String.◌∷◌ d s)

-- The check of a folder's name.
unfoldable pub is_refused : String → Bool
unfolding has_dots
is_refused folder = has_dots folder || (has_code b'/' folder || has_code b'\\' folder)

-- Whether a session's key lies in the folder.
unfoldable pub in_folder : String → String → Bool
in_folder folder key = starts_with key (concat folder "/") || starts_with key (concat folder "\\")

module _ {S : Type 0} (disk : Disk S) (base : String) where
  removed : String → Result (Unit {0}) × S → ℕ → Viewers S → ℕ × Viewers S
  unfolding close_matching in_folder
  removed folder (err e, s) n v = (n, record v { disk_state = s })
  removed folder (ok _, s) n v =
      (suc n, record { manager = close_matching (in_folder folder) v.manager; disk_state = s })

  unfoldable pub delete_folder : String → ℕ → Viewers S → ℕ × Viewers S
  unfolding removed is_refused
  delete_folder folder n v =
      let target = disk.join base folder in
      if is_refused folder || not (starts_with target base)
      then (n, v)
      else removed folder (disk.remove_all target v.disk_state) n v

  -- The loop over the folders; `base` is the absolute path of the storage.
  unfoldable pub delete_folders : List String → ℕ → Viewers S → ℕ × Viewers S
  unfolding delete_folder
  delete_folders [] n v = (n, v)
  delete_folders (folder ∷ rest) n v =
      let (n', v') = delete_folder folder n v in delete_folders rest n' v'

  delete_bound : Result (List String) → Viewers S → Page ℕ × Viewers S
  unfolding delete_folders
  delete_bound (err e) v = (refused 400 (failure "Invalid request"), v)
  delete_bound (ok folders) v = let (n, v') = delete_folders folders 0 v in (page n, v')

  unfoldable pub handle_delete_history :
      (String → Result (List String)) → String → Viewers S → Page ℕ × Viewers S
  unfolding delete_bound
  handle_delete_history bind body v = delete_bound (bind body) v

  view_answer : Result ℕ × Manager → Viewers S → Page ℕ × Viewers S
  view_answer (ok port, m) v = (page port, record v { manager = m })
  view_answer (err e, m) v =
      (refused 500 (wrapped "Failed to start pprof" e), record v { manager = m })

  view_path : Launch → Result String → Viewers S → Page ℕ × Viewers S
  unfolding view_answer get_or_start
  view_path l (err e) v = (refused 400 (failure "Invalid key"), v)
  view_path l (ok rel) v =
      let target = disk.join base rel in
      if starts_with target base
      then view_answer (get_or_start target l v.manager) v
      else (refused 403 (failure "Access denied"), v)

  -- Up to the port to which the request is passed; `decode` is that of base64.
  unfoldable pub handle_pprof_proxy :
      (String → Result String) → Launch → String → Viewers S → Page ℕ × Viewers S
  unfolding view_path
  handle_pprof_proxy decode l key v = view_path l (decode key) v

-- ModifyResponse: a redirect to an absolute path is put below the proxy's own path.
unfoldable pub rewrite_location : String → String → String
rewrite_location key location =
    if starts_with location "/"
    then concat "/api/performance/ui/" (concat key location)
    else location

abbrev slash : Char
slash = "/"

head_slash :
    (c : Char) (f t key : String)
    → starts_with key "/" ≡ true
    → starts_with key (concat (String.◌∷◌ c f) t) ≡ true
    → c ≡ slash
head_slash c f t key root inside =
    let (r, e) = (starts_with_iff key "/").0 root in
    let (r', e') = (starts_with_iff key (concat (String.◌∷◌ c f) t)).0 inside in
    let same : String.◌∷◌ c (concat (concat f t) r') ≡ String.◌∷◌ slash (concat "" r) =
      sym (ap (λ w. concat w r') (append.cons c f t) ∙ append.cons c (concat f t) r')
      ∙ e'
      ∙ sym e
      ∙ append.cons slash "" r in
    cc

outside :
    (c : Char) (f t key : String)
    → is_refused (String.◌∷◌ c f) ≡ false
    → starts_with key "/" ≡ true
    → starts_with key (concat (String.◌∷◌ c f) t) ≡ false
unfolding is_refused
outside c f t key passed root = elim (Bool-cases (starts_with key (concat (String.◌∷◌ c f) t))) [
  | inr no_prefix ↦ no_prefix
  | inl inside ↦
      let same : c ≡ slash = head_slash c f t key root inside in
      let number : code c ≡ b'/' = ap code same in absurd (ground (arith, passed, number))
]

-- A path from the root is in no folder whose name is not empty and passes the check.
not-in_folder :
    (folder key : String)
    → folder ≢ ""
    → is_refused folder ≡ false
    → starts_with key "/" ≡ true
    → in_folder folder key ≡ false
unfolding in_folder
not-in_folder String.[] key named passed root = absurd (named refl)
not-in_folder (String.◌∷◌ c f) key named passed root =
    rw (outside c f "/" key passed root, outside c f "\\" key passed root) refl

drop_none :
    (folder : String) (m : Dict String Session)
    → folder ≢ ""
    → is_refused folder ≡ false
    → All (λ (e : String × Session). starts_with e.0 "/" ≡ true) m
    → (drop (λ k s. in_folder folder k) m ≡ m) × (cmds_of (λ k s. in_folder folder k) m ≡ [])
unfolding drop cmds_of
drop_none folder [] named passed roots = (refl, refl)
drop_none folder ((k, s) ∷ m) named passed roots =
    let (same, none_killed) = drop_none folder m named passed roots.1 in
    rw (not-in_folder folder k named passed roots.0) (ap (λ l. (k, s) ∷ l) same, none_killed)

-- The keys of the sessions are paths from the root.
abbrev pub FromRoot : Manager → Type 0
FromRoot m = All (λ (e : String × Session). starts_with e.0 "/" ≡ true) m.sessions

close_none :
    (folder : String) (m : Manager)
    → folder ≢ ""
    → is_refused folder ≡ false
    → FromRoot m
    → close_matching (in_folder folder) m ≡ m
unfolding close_matching
close_none folder m named passed roots =
    let (same, none_killed) = drop_none folder m.sessions named passed roots in
    rw (same, none_killed, append-nil m.killed) refl

module _ {S : Type 0} (disk : Disk S) (base : String) where
  delete_folder-manager :
      (folder : String) (n : ℕ) (v : Viewers S)
      → folder ≢ ""
      → FromRoot v.manager
      → (delete_folder disk base folder n v).1.manager ≡ v.manager
  unfolding delete_folder
  delete_folder-manager folder n v named roots =
      go (is_refused folder) (starts_with target base) refl (disk.remove_all target v.disk_state)
    where
      target : String
      target = disk.join base folder

      go :
          (a b : Bool)
          → is_refused folder ≡ a
          → (q : Result (Unit {0}) × S)
          → (if a || not b then (n, v) else removed disk base folder q n v).1.manager ≡ v.manager
      go true b passed q = refl
      go false false passed q = refl
      go false true passed (ok u, s) = close_none folder v.manager named passed roots
      go false true passed (err x, s) = refl

  -- A deletion of folders, none of whose names is empty, never touches the viewers: their keys are paths
  -- from the root and are compared with the bare names. So the viewers of deleted profiles run on.
  pub deletion_keeps_viewers :
      (folders : List String) (n : ℕ) (v : Viewers S)
      → All (λ folder. folder ≢ "") folders
      → FromRoot v.manager
      → (delete_folders disk base folders n v).1.manager ≡ v.manager
  unfolding delete_folders
  deletion_keeps_viewers [] n v named roots = refl
  deletion_keeps_viewers (folder ∷ rest) n v named roots =
      let step = delete_folder-manager folder n v named.0 roots in
      let r = delete_folder disk base folder n v in
      deletion_keeps_viewers rest r.0 r.1 named.1 (rw step roots) ∙ step
