-- ===== src/Server/Files/Laws.antt =====
-- internal/server/server.go: which files are served.
use stackd.Base.{
  ◌≡◌, ◌≢◌, ◌⊎◌, inl, inr, refl, Bool-cases, Option, none, some, List, [], ◌∷◌, All, Bytes,
  is_empty, is_empty-eq-true, is_empty-eq-false,
}
use stackd.Paths.{join_path}
use stackd.State.{StackState}
use stackd.State.Store.{Store, get_all, get_stack}
use stackd.State.Store.Laws.{HasNoSlash, IsConsistent}
use stackd.Stacks.Compose.{candidates}
use stackd.Server.Files.Dirs.{dir_of, stack_dir_of-get_stack}
use stackd.Server.Files.{
  FileAnswer, stack_not_found, compose_file_not_found, content, Entry, missing, symlink, other,
  opened, first_file, handle_compose_file,
}

-- A last component that is not opened.
pub data IsRefused (e : Entry) : Type 0 where
  absent : e ≡ missing → IsRefused e
  linked : (target : Bytes) → e ≡ symlink target → IsRefused e
  unreadable : e ≡ other none → IsRefused e

module _ (entry : Bytes → Entry) where
  -- The first of some names that can be opened in a directory: it is no symlink there, and the names
  -- before it are missing, symlinks or not readable.
  pub data FirstFile (dir s : Bytes) : List Bytes → Type 0 where
    here :
        (name : Bytes) (names : List Bytes)
        → entry (join_path dir name) ≡ other (some s)
        → FirstFile dir s (name ∷ names)
    later :
        (name : Bytes) (names : List Bytes)
        → IsRefused (entry (join_path dir name))
        → FirstFile dir s names
        → FirstFile dir s (name ∷ names)

  Entry-cases : (e : Entry) → IsRefused e ⊎ ((s : Bytes) × (e ≡ other (some s)))
  Entry-cases missing = inl (absent refl)
  Entry-cases (symlink target) = inl (linked target refl)
  Entry-cases (other none) = inl (unreadable refl)
  Entry-cases (other (some s)) = inr (s, refl)

  IsRefused-opened : (e : Entry) → IsRefused e → opened e ≡ none
  IsRefused-opened e (absent q) = rw q refl
  IsRefused-opened e (linked target q) = rw q refl
  IsRefused-opened e (unreadable q) = rw q refl

  -- What handleComposeFile answers for a stack, as GetStack finds it: no stack or no directory, no
  -- candidate that can be opened, or the content of the first candidate that can.
  pub data FileOutcome : Option StackState → FileAnswer → Type 0 where
    unknown : (st : Option StackState) → dir_of st ≡ [] → FileOutcome st stack_not_found
    no_file :
        (st : Option StackState)
        → dir_of st ≢ []
        → All (λ name. IsRefused (entry (join_path (dir_of st) name))) candidates
        → FileOutcome st compose_file_not_found
    served :
        (st : Option StackState) (s : Bytes)
        → dir_of st ≢ []
        → FirstFile (dir_of st) s candidates
        → FileOutcome st (content s)

  -- What the loop over the candidates answers.
  data LoopOutcome (dir : Bytes) (names : List Bytes) : FileAnswer → Type 0 where
    none_opened :
        All (λ name. IsRefused (entry (join_path dir name))) names
        → LoopOutcome dir names compose_file_not_found
    one_opened : (s : Bytes) → FirstFile dir s names → LoopOutcome dir names (content s)

  LoopOutcome-later :
      (dir name : Bytes) (names : List Bytes) (a : FileAnswer)
      → IsRefused (entry (join_path dir name))
      → LoopOutcome dir names a
      → LoopOutcome dir (name ∷ names) a
  LoopOutcome-later dir name names _ r (none_opened h) = none_opened (r, h)
  LoopOutcome-later dir name names _ r (one_opened s f) = one_opened s (later name names r f)

  first_file-LoopOutcome :
      (dir : Bytes) (names : List Bytes) → LoopOutcome dir names (first_file entry dir names)
  unfolding first_file
  first_file-LoopOutcome dir [] = none_opened tt
  first_file-LoopOutcome dir (name ∷ names) = elim (Entry-cases (entry (join_path dir name))) [
    | inl r ↦
        rw (IsRefused-opened _ r, first_file)
          (LoopOutcome-later dir name names _ r (first_file-LoopOutcome dir names))
    | inr (s, e) ↦ rw (e, first_file) (one_opened s (here name names e))
  ]

  LoopOutcome-FileOutcome :
      (st : Option StackState) (a : FileAnswer)
      → dir_of st ≢ []
      → LoopOutcome (dir_of st) candidates a
      → FileOutcome st a
  LoopOutcome-FileOutcome st _ n (none_opened h) = no_file st n h
  LoopOutcome-FileOutcome st _ n (one_opened s f) = served st s n f

  -- Where the store is consistent and no name of a repository has a '/', the answer for a compose file
  -- is that of the stack which GetStack finds under the names of the request: without one, or without
  -- its directory, it is "stack not found"; otherwise it is the content of the first candidate in the
  -- directory that can be opened and read, where a candidate that is itself a symlink is passed over,
  -- wherever it points, and "compose file not found" where every candidate is missing, a symlink or
  -- not readable. Symlinks among the directories of the path are followed.
  pub handle_compose_file-FileOutcome :
      (store : Store)
      → IsConsistent store
      → (repo_name stack_name : Bytes) → HasNoSlash repo_name
      → All (λ st. HasNoSlash st.repo_name) (get_all store).stacks
      → FileOutcome
          (get_stack repo_name stack_name store)
          (handle_compose_file entry repo_name stack_name store)
  unfolding handle_compose_file
  handle_compose_file-FileOutcome store c repo_name stack_name n ns =
      let st = get_stack repo_name stack_name store in
      rw (stack_dir_of-get_stack store c repo_name stack_name n ns, handle_compose_file)
        (elim (Bool-cases (is_empty (dir_of st))) [
          | inl e ↦ rw e (unknown st (is_empty-eq-true (dir_of st) e))
          | inr e ↦ rw e (
              LoopOutcome-FileOutcome st _ (is_empty-eq-false (dir_of st) e)
                (first_file-LoopOutcome (dir_of st) candidates))
        ])
