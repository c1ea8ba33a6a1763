-- ===== src/Sessions/Pages.antt =====
-- The pages of a user's active sessions.
use enterprise_auth_server.Common.{
  ℕ, zero, suc, ◌+◌, ◌≤◌, ◌≡◌, refl, ap, sym, ◌∙◌, Bool, true, ltb, some, none, List, [], ◌∷◌, ◌++◌,
  arith, All, All-map, take-All, drop-All, take_then, drop_then, select, take, drop, length,
  length-take, Bool-cases, inl, inr, nat_eq,
}
use enterprise_auth_server.Models.{Session, Database}
use enterprise_auth_server.Sessions.Repository.{
  insert_by_activity, by_activity, owned_active, list_active_for_user, count_active_for_user,
}

-- The most recently active comes first.
pub IsByActivity : List Session → Type 0
IsByActivity [] = Unit {0}
IsByActivity (s ∷ ss) = All (λ t. t.last_activity_at ≤ s.last_activity_at) ss × IsByActivity ss

module _ (P : Session → Type 0) where
  insert_by_activity-All :
      (s : Session) (ss : List Session) → P s → All P ss → All P (insert_by_activity s ss)
  unfolding insert_by_activity
  insert_by_activity-All s [] p a = (p, tt)
  insert_by_activity-All s (t ∷ ts) p a =
      elim (Bool-cases (ltb s.last_activity_at t.last_activity_at)) [
        | inl e ↦ rw e (a.0, insert_by_activity-All s ts p a.1)
        | inr e ↦ rw e (p, a)
      ]

  by_activity-All : (ss : List Session) → All P ss → All P (by_activity ss)
  unfolding by_activity
  by_activity-All [] a = tt
  by_activity-All (s ∷ ss) a =
      insert_by_activity-All s (by_activity ss) a.0 (by_activity-All ss a.1)

insert-IsByActivity :
    (s : Session) (ss : List Session) → IsByActivity ss → IsByActivity (insert_by_activity s ss)
unfolding insert_by_activity IsByActivity
insert-IsByActivity s [] a = (tt, tt)
insert-IsByActivity s (t ∷ ts) a = elim (Bool-cases (ltb s.last_activity_at t.last_activity_at)) [
  | inl e ↦ rw e (
    insert_by_activity-All (λ r. r.last_activity_at ≤ t.last_activity_at) s ts (ground (arith, e))
        a.0,
    insert-IsByActivity s ts a.1,
  )
  | inr e ↦
      let below : t.last_activity_at ≤ s.last_activity_at = ground (arith, e) in
      rw e ((below, All-map _ _ ts (λ r h. omega (arith, h, below)) a.0), a)
]

by_activity-IsByActivity : (ss : List Session) → IsByActivity (by_activity ss)
unfolding by_activity IsByActivity
by_activity-IsByActivity [] = tt
by_activity-IsByActivity (s ∷ ss) =
    insert-IsByActivity s (by_activity ss) (by_activity-IsByActivity ss)

take-IsByActivity : (n : ℕ) (ss : List Session) → IsByActivity ss → IsByActivity (take n ss)
unfolding IsByActivity
take-IsByActivity zero ss a = tt
take-IsByActivity (suc n) [] a = tt
take-IsByActivity (suc n) (s ∷ ss) a = (take-All _ n ss a.0, take-IsByActivity n ss a.1)

drop-IsByActivity : (n : ℕ) (ss : List Session) → IsByActivity ss → IsByActivity (drop n ss)
unfolding IsByActivity
drop-IsByActivity zero ss a = a
drop-IsByActivity (suc n) [] a = tt
drop-IsByActivity (suc n) (s ∷ ss) a = drop-IsByActivity n ss a.1

select-All : (p : Session → Bool) (ss : List Session) → All (λ s. p s ≡ true) (select p ss)
unfolding select
select-All p [] = tt
select-All p (s ∷ ss) = elim (Bool-cases (p s)) [
  | inl e ↦ rw e (e, select-All p ss)
  | inr e ↦ rw e (select-All p ss)
]

length-insert_by_activity :
    (s : Session) (ss : List Session) → length (insert_by_activity s ss) ≡ suc (length ss)
unfolding insert_by_activity
length-insert_by_activity s [] = refl
length-insert_by_activity s (t ∷ ts) = ground (arith, length-insert_by_activity s ts)

length-by_activity : (ss : List Session) → length (by_activity ss) ≡ length ss
unfolding by_activity
length-by_activity [] = refl
length-by_activity (s ∷ ss) =
    length-insert_by_activity s (by_activity ss) ∙ ap suc (length-by_activity ss)

-- What holds of the page of a user's active sessions from an offset on.
pub record IsPage (user_id n offset : ℕ) (db : Database) : Type 0 where
  pub at_most : length (list_active_for_user user_id (some n) offset db) ≤ n
  pub owned :
      All (λ s. owned_active user_id s ≡ true) (list_active_for_user user_id (some n) offset db)
  pub ordered : IsByActivity (list_active_for_user user_id (some n) offset db)
  pub next_page :
      (m : ℕ)
      → list_active_for_user user_id (some n) offset db
          ++ list_active_for_user user_id (some m) (offset + n) db
        ≡ list_active_for_user user_id (some (n + m)) offset db
  pub all_of_them :
      length (list_active_for_user user_id none 0 db) ≡ count_active_for_user user_id db

-- A page of a user's active sessions has at most as many as the limit, all of them active and the
-- user's, with the most recently active first; the next page goes on where it ends, and the pages
-- together are as many as `count_active_for_user` says.
pub list_active_for_user-IsPage :
    (user_id n offset : ℕ) (db : Database) → IsPage user_id n offset db
unfolding list_active_for_user count_active_for_user
list_active_for_user-IsPage user_id n offset db =
    let mine = select (owned_active user_id) db.sessions in
    let sorted = by_activity mine in
    record {
      at_most = length-take n (drop offset sorted);
      owned = take-All _ n (drop offset sorted) (
          drop-All _ offset sorted
            (by_activity-All _ mine (select-All (owned_active user_id) db.sessions)));
      ordered =
          take-IsByActivity n (drop offset sorted)
            (drop-IsByActivity offset sorted (by_activity-IsByActivity mine));
      next_page = λ m.
          ap (λ rest. take n (drop offset sorted) ++ take m rest) (sym (drop_then n offset sorted))
          ∙ take_then n m (drop offset sorted);
      all_of_them = length-by_activity mine;
    }
