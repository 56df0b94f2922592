-- ===== src/Repository/Memory/Laws.antt =====
-- `MemoryUserStore` meets the contract of a store of users.
use goph_keeper.Base.{
  ◌≡◌, refl, sym, ok-injective, ok-ne-err, Option, none, some, ◌∷◌, text_eq, Comparable, ◌==◌,
  if◌then◌else◌, ok, err, Outcome, sentinel, err_user_exists, err_user_not_found, ◌≢◌, ◌⊎◌,
  Option-cases, inl, inr, Error,
}
use goph_keeper.Models.{User}
use goph_keeper.Repository.Users.{UserContract, or_not_found}
use goph_keeper.Repository.Memory.{Items, lookup, create, get, memory_store, user_key}

pub lookup-cons :
    {T K : Type 0} ⦃e : Comparable K⦄ (k j : K) (item : T) (items : Items K T)
    → lookup j ((k, item) ∷ items) ≡ (if k == j then some item else lookup j items)
unfolding lookup
lookup-cons k j item items = refl

abbrev or_missing : {T : Type 0} → Error → Option T → Outcome T
or_missing e none = err e
or_missing e (some item) = ok item

module _ {T K : Type 0} ⦃e : Comparable K⦄ (key_fn : T → K) (err_exists err_missing : Error) where
  pub create_free :
      (item : T) (items : Items K T)
      → lookup (key_fn item) items ≡ none
      → create key_fn err_exists err_missing item items ≡ (ok item, (key_fn item, item) ∷ items)
  unfolding create
  create_free item items free = rw (free, create)

  pub create_taken :
      (item old : T) (items : Items K T)
      → lookup (key_fn item) items ≡ some old
      → create key_fn err_exists err_missing item items ≡ (err err_exists, items)
  unfolding create
  create_taken item old items taken = rw (taken, create)

  -- `Create` of the generic store either finds its key taken, returns `errExists` and changes
  -- nothing, or returns the item, and the key then gives the item and other keys what they gave.
  pub lookup-create :
      (item : T) (items : Items K T) (k : K)
      → let after = create key_fn err_exists err_missing item items in
        ((after.0 ≡ err err_exists)
          × (lookup (key_fn item) items ≢ none)
          × (lookup k after.1 ≡ lookup k items))
        ⊎ ((after.0 ≡ ok item)
            × (lookup (key_fn item) items ≡ none)
            × (lookup k after.1 ≡ (if key_fn item == k then some item else lookup k items)))
  lookup-create item items k = elim (Option-cases (lookup (key_fn item) items)) [
    | inl free ↦ inr (
      rw (create_free item items free),
      free,
      rw (create_free item items free) (lookup-cons (key_fn item) k item items),
    )
    | inr (old, taken) ↦
        inl (
          rw (create_taken item old items taken),
          λ free. cc,
          rw (create_taken item old items taken),
        )
  ]

  pub get_lem :
      (key : K) (items : Items K T)
      → get key_fn err_exists err_missing key items
        ≡ (or_missing err_missing (lookup key items), items)
  unfolding get
  get_lem key items = elim (Option-cases (lookup key items)) [
    | inl free ↦ rw (free, get)
    | inr (item, taken) ↦ rw (taken, get)
  ]

pub or_missing_user :
    (u : Option User) → or_missing (sentinel err_user_not_found) u ≡ or_not_found u
or_missing_user none = refl
or_missing_user (some u) = refl

-- The users in memory by email: every state answers, and every new user is fresh.
unfoldable pub memory_users : UserContract memory_store
memory_users =
    let exists = sentinel err_user_exists in
    let missing = sentinel err_user_not_found in
    record {
      Answers = λ w. Unit {0};
      IsFresh = λ u w. Unit {0};
      view = λ e w. lookup e w.items;
      kept = λ u. u;
      kept_fields = λ u. (refl, refl, refl);
      create_new = λ u w _ _ free.
          let done = create_free user_key exists missing u w.items free in
          (rw done, λ e. rw done (lookup-cons u.email e u w.items), tt);
      create_done = λ u v w _ h. elim (Option-cases (lookup u.email w.items)) [
        | inl free ↦
            let done = create_free user_key exists missing u w.items free in
            (
              ok-injective v u (sym (rw done at h)),
              free,
              λ e. rw done (lookup-cons u.email e u w.items),
              tt,
            )
        | inr (old, taken) ↦ absurd (
            ok-ne-err v exists
              (sym (rw (create_taken user_key exists missing u old w.items taken) at h)))
      ];
      now_answers = λ w _. tt;
      now_view = λ w e. refl;
      random_answers = λ w _. tt;
      random_view = λ w e. refl;
      create_taken = λ u v w _ taken.
          let done = create_taken user_key exists missing u v w.items taken in
          (rw done, λ e. rw done);
      get_result = λ e w _.
          let done = get_lem user_key exists missing e w.items in
          (rw done (or_missing_user (lookup e w.items)), λ e'. rw done, tt);
    }
