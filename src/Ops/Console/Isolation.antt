-- ===== src/Ops/Console/Isolation.antt =====
-- What a call through the console of cmd/ops/main.go can change.
use game_production.Common.{
  ℕ, String, string_key, false, Option, none, some, lookup, lookup-insert, Result, ok, err, Exec,
  ◌==◌, ◌≡◌, refl, ◌∙◌, arith,
}
use game_production.Rpc.Client.{Net}
use game_production.Ops.Console.{
  Console, ProjectContext, Outside, CallBody, Answer, handle_generic_call, call_method,
  call_project, call_answer, call_bound, on_client, get_project_context, method_registry,
  registry_of,
}

module _ {S T P : Type 0} (o : Outside S T P) (j : String) where
  -- The same projects are listed, and the one with the ID `j` is as before.
  abbrev Spares : Console S T → Console S T → Type 0
  Spares c d = (lookup j d.projects ≡ lookup j c.projects) × (d.project_list ≡ c.project_list)

  call_answer-state : (a : Result Answer × Console S T) → (call_answer o a).1 ≡ a.1
  unfolding call_answer
  call_answer-state (ok a, c) = refl
  call_answer-state (err e, c) = refl

  on_client-Spares :
      {A : Type 0} (id : String) (p : ProjectContext T) (m : Exec (Net S T) A) (c : Console S T)
      → (id == j) ≡ false
      → Spares c (on_client o id p m c).1
  unfolding on_client
  on_client-Spares id p m c other = (lookup-insert id j _ c.projects ∙ rw other refl, refl)

  -- A call through the console, whatever it answers, changes the connections and the cache of the project
  -- that it names and of no other, and the list of projects stays.
  pub generic_call_isolated :
      (pick : ℕ) (body : String) (q : CallBody) (c : Console S T)
      → o.payloads.bind_call body ≡ ok q
      → (q.project == j) ≡ false
      → Spares c (handle_generic_call o pick body c).1
  unfolding handle_generic_call
  generic_call_isolated pick body q c bound other =
      rw bound (in_project (get_project_context o q.project c))
    where
      with_handler :
          (p : ProjectContext T) (h : Option (String → Exec (Net S T) Answer))
          → Spares c (call_method o q p h c).1
      with_handler p none = (refl, refl)
      with_handler p (some h) =
          rw (call_answer-state (on_client o q.project p (h q.payload) c))
            (on_client-Spares q.project p (h q.payload) c other)

      in_project : (r : Result (ProjectContext T)) → Spares c (call_project o pick q r c).1
      in_project (ok p) =
          with_handler p (lookup q.method (method_registry o pick (registry_of o p.config)))
      in_project (err e) = (refl, refl)

-- A call that is answered with 400, for a body that cannot be read, a project or a method that is not
-- there, changes nothing.
pub refused_call_changes_nothing :
    {S T P : Type 0} (o : Outside S T P) (pick : ℕ) (body : String) (c : Console S T)
    → (handle_generic_call o pick body c).0.status ≡ 400
    → (handle_generic_call o pick body c).1 ≡ c
unfolding handle_generic_call
refused_call_changes_nothing {S} {T} {P} o pick body c = in_body (o.payloads.bind_call body)
  where
    answered : (a : Result Answer × Console S T) → (call_answer o a).0.status ≡ 400 → ⊥
    answered (ok a, d) h = omega (arith, h)
    answered (err e, d) h = omega (arith, h)

    with_handler :
        (q : CallBody) (p : ProjectContext T) (h : Option (String → Exec (Net S T) Answer))
        → (call_method o q p h c).0.status ≡ 400
        → (call_method o q p h c).1 ≡ c
    with_handler q p none h = refl
    with_handler q p (some f) h = absurd (answered (on_client o q.project p (f q.payload) c) h)

    in_project :
        (q : CallBody) (r : Result (ProjectContext T))
        → (call_project o pick q r c).0.status ≡ 400
        → (call_project o pick q r c).1 ≡ c
    in_project q (ok p) h =
        with_handler q p (lookup q.method (method_registry o pick (registry_of o p.config))) h
    in_project q (err e) h = refl

    in_body :
        (r : Result CallBody)
        → (call_bound o pick r c).0.status ≡ 400
        → (call_bound o pick r c).1 ≡ c
    in_body (ok q) h = in_project q (get_project_context o q.project c) h
    in_body (err e) h = refl
