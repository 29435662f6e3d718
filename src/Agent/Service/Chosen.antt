-- ===== src/Agent/Service/Chosen.antt =====
-- The entries and targets that a request comes to (src/agent/service.rs).
use mathlib.Core.Path.{subst}
use aldis.Prelude.{
  not, true, false, Bool-cases, Option-cases, Result-cases, List, [], ◌∷◌, All, some, ok, ◌≡◌, refl,
  inl, inr,
}
use aldis.Prelude.Among.{All-find}
use aldis.Prelude.Iter.{keep, keep-All, All-keep, find, filter_map}
use aldis.Prelude.Strings.{eq_ignore_ascii_case}
use aldis.Prelude.Text.{Text}
use aldis.Fleet.{flash_order}
use aldis.Fleet.Peers.{McuInventory}
use aldis.Agent.{McuEntry, StatusBody}
use aldis.Agent.Service.{
  UpdateRequest, these, every_mcu, can_update, named, if_updatable, entries_for, object_of, once,
  targets_of, accept,
}

-- An entry without the action cannot be asked for.
every_updatable :
    (entries : List McuEntry)
    → keep (λ m. not (can_update m)) entries ≡ []
    → All (λ m. can_update m ≡ true) entries
unfolding keep
every_updatable [] e = tt
every_updatable (m ∷ ms) e = elim (Bool-cases (can_update m)) [
  | inl yes' ↦ (yes', every_updatable ms (rw (keep, yes') at e))
  | inr no' ↦ absurd (cc (rw (keep, no') at e))
]

pub named-All :
    (P : McuEntry → Type 0) (mcus : List McuEntry) (names : List Text) (entries : List McuEntry)
    → All P mcus
    → named mcus names ≡ ok entries
    → All P entries
unfolding named
named-All P mcus [] entries h e = let none' : [] ≡ entries = cc e in subst (All P) none' tt
named-All P mcus (name ∷ names) entries h e =
    elim (Option-cases (find (λ m. eq_ignore_ascii_case m.name name) mcus)) [
      | inl missing ↦ absurd (cc (rw (named, missing) at e))
      | inr (entry, there) ↦ elim (Result-cases (named mcus names)) [
        | inr (x, failed) ↦ absurd (cc (rw (named, there, failed) at e))
        | inl (rest, done) ↦
            let both : (entry ∷ rest) ≡ entries = cc (rw (named, there, done) at e) in
            subst (All P) both (
              All-find P (λ m. eq_ignore_ascii_case m.name name) mcus entry h there,
              named-All P mcus names rest h done,
            )
      ]
    ]

if_updatable-All :
    (entries refused result : List McuEntry)
    → if_updatable entries refused ≡ ok result
    → (refused ≡ []) × (entries ≡ result)
if_updatable-All entries [] result e = (refl, cc e)
if_updatable-All entries (m ∷ ms) result e = absurd (cc e)

-- Every entry that a request comes to has the action.
pub entries_for-All :
    (P : McuEntry → Type 0) (mcus : List McuEntry) (request : UpdateRequest)
    (entries : List McuEntry)
    → All P mcus
    → entries_for mcus request ≡ ok entries
    → All P entries × All (λ m. can_update m ≡ true) entries
unfolding entries_for
entries_for-All P mcus (every_mcu true) entries h e =
    let same : keep can_update mcus ≡ entries = cc e in
    (
      subst (All P) same (All-keep P can_update mcus h),
      subst (All (λ m. can_update m ≡ true)) same (keep-All can_update mcus),
    )
entries_for-All P mcus (every_mcu false) entries h e = absurd (cc e)
entries_for-All P mcus (these names) entries h e = elim (Result-cases (named mcus names)) [
  | inr (x, failed) ↦ absurd (cc (rw (entries_for, failed) at e))
  | inl (found, done) ↦
      let (all', same) =
        if_updatable-All found (keep (λ m. not (can_update m)) found) entries
          (rw (entries_for, done) at e) in
      (
        subst (All P) same (named-All P mcus names found h done),
        subst (All (λ m. can_update m ≡ true)) same (every_updatable found all'),
      )
]

pub accept-ok :
    (body : StatusBody) (found : McuInventory) (request : UpdateRequest) (targets : List Text)
    → accept body (some found) request ≡ ok targets
    → (entries : List McuEntry) × (entries_for body.mcus request ≡ ok entries)
      × (targets_of found entries ≡ ok targets)
unfolding accept
accept-ok body found request targets e = elim (Option-cases body.blocker) [
  | inr (reason, blocked) ↦ absurd (cc (rw (accept, blocked) at e))
  | inl clear ↦ elim (Result-cases (entries_for body.mcus request)) [
    | inr (x, failed) ↦ absurd (cc (rw (accept, clear, failed) at e))
    | inl (entries, done) ↦ (entries, done, rw (accept, clear, done) at e)
  ]
]

pub targets_of-ok :
    (found : McuInventory) (entries : List McuEntry) (targets : List Text)
    → targets_of found entries ≡ ok targets
    → flash_order found.mcus (once [] (filter_map (object_of found.mcus) entries)) ≡ targets
unfolding targets_of
targets_of-ok found [] targets e = absurd (cc e)
targets_of-ok found (entry ∷ entries) targets e = cc e

pub All-both :
    (P Q : McuEntry → Type 0) (entries : List McuEntry)
    → All P entries
    → All Q entries
    → All (λ entry. P entry × Q entry) entries
All-both P Q [] h k = tt
All-both P Q (entry ∷ entries) h k = ((h.0, k.0), All-both P Q entries h.1 k.1)
