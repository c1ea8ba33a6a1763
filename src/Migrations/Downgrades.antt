-- ===== src/Migrations/Downgrades.antt =====
-- `downgrade` after `upgrade`, of each revision and of a history of revisions.
use mathlib.Core.Option.{some-injective}
use enterprise_auth_server.Common.{ℕ, some, List, [], ◌∷◌, ◌≡◌, refl, sym, subst, All, text_beq}
use enterprise_auth_server.Common.Partial.{>>=-eq-some}
use enterprise_auth_server.Migrations.{Schema, Script, run}
use enterprise_auth_server.Migrations.Closed.{IsClosed, run-IsClosed}
use enterprise_auth_server.Migrations.Undo.{Adds, undo_all, run-undo_all}
use enterprise_auth_server.Migrations.Revisions.{
  Revision, initial, two_factor, sessions, email_tokens, oauth_accounts, composite, upgrade_of,
  downgrade_of, upgrade, downgrade, upgrade_all, downgrade_all,
}

-- A downgrade takes back what the upgrade of its revision added, statement by statement.
pub record Undoes (down ops : Script) : Type 0 where
  pub adds : All Adds ops
  pub reversed : undo_all ops ≡ down

Undoes-same :
    (down ops found : Script) → Undoes down ops → some ops ≡ some found → Undoes down found
Undoes-same down ops found u h = subst (Undoes down) (some-injective ops found h) u

pub downgrade_of-Undoes :
    (ids : ℕ → ℕ) (r : Revision) (ops : Script)
    → upgrade_of ids r ≡ some ops
    → Undoes (downgrade_of r) ops
unfolding upgrade_of downgrade_of text_beq
downgrade_of-Undoes ids initial ops h =
    Undoes-same _ _ ops (record { adds = (search); reversed = refl }) h
downgrade_of-Undoes ids two_factor ops h =
    Undoes-same _ _ ops (record { adds = (search); reversed = refl }) h
downgrade_of-Undoes ids sessions ops h =
    Undoes-same _ _ ops (record { adds = (search); reversed = refl }) h
downgrade_of-Undoes ids email_tokens ops h =
    Undoes-same _ _ ops (record { adds = (search); reversed = refl }) h
downgrade_of-Undoes ids oauth_accounts ops h =
    Undoes-same _ _ ops (record { adds = (search); reversed = refl }) h
downgrade_of-Undoes ids composite ops h =
    Undoes-same _ _ ops (record { adds = (search); reversed = refl }) h

upgrade-IsClosed :
    (ids : ℕ → ℕ) (r : Revision) (s t : Schema) → IsClosed s → upgrade ids r s ≡ some t → IsClosed t
unfolding upgrade
upgrade-IsClosed ids r s t c h =
    let (ops, e, k) = >>=-eq-some (upgrade_of ids r) (λ ops. run ops s) t h in
    run-IsClosed ops s t c k

downgrade-upgrade :
    (ids : ℕ → ℕ) (r : Revision) (s t : Schema)
    → IsClosed s
    → upgrade ids r s ≡ some t
    → downgrade r t ≡ some s
unfolding upgrade downgrade
downgrade-upgrade ids r s t c h =
    let (ops, e, k) = >>=-eq-some (upgrade_of ids r) (λ ops. run ops s) t h in
    let u = downgrade_of-Undoes ids r ops e in
    subst (λ down. run down t ≡ some s) u.reversed (run-undo_all ops s t c u.adds k)

-- Where revisions were applied one after another to a schema in which every foreign key and index has
-- its table, their downgrades in the opposite order all succeed, and give that schema back.
pub downgrade_all-upgrade_all :
    (ids : ℕ → ℕ) (rs : List Revision) (s t : Schema)
    → IsClosed s
    → upgrade_all ids rs s ≡ some t
    → downgrade_all rs t ≡ some s
unfolding upgrade_all downgrade_all
downgrade_all-upgrade_all ids [] s t c h = sym h
downgrade_all-upgrade_all ids (r ∷ rs) s t c h =
    let (u, e, k) = >>=-eq-some (upgrade ids r s) (upgrade_all ids rs) t h in
    rw (downgrade_all-upgrade_all ids rs u t (upgrade-IsClosed ids r s u c e) k)
      (downgrade-upgrade ids r s u c e)
