-- ===== src/Domain/Rooms/Creation.antt =====
-- `create_room`: one active room for each host, and a slug of its own for each room.
use emoselfie_be.Prelude.{
  ℕ, ◌+◌, ◌≡◌, refl, Bool, true, false, not, ◌&&◌, Option, none, some, List, [], ◌∷◌, ◌++◌, arith,
  ◌==◌, if◌then◌else◌, take, All, Bool-cases, inl, inr,
}
use emoselfie_be.Prelude.Sets.{has}
use emoselfie_be.Prelude.Every.{AllPairs, AllPairs-append}
use emoselfie_be.Core.Errors.{Result, ok, err, app, service_unavailable}
use emoselfie_be.Db.{Room}
use emoselfie_be.Domain.Rooms.{
  RoomTable, is_live, hosts_live, active_room, conflicts, try_slugs, create_room,
}

-- Two rows that the unique indexes admit side by side.
abbrev pub AreApart : Room → Room → Type 0
AreApart a b =
    (not (a.invite_slug == b.invite_slug)
      && not ((a.host_user_id == b.host_user_id) && (is_live a && is_live b)))
    ≡ true

abbrev pub IsUnique : List Room → Type 0
IsUnique = AllPairs AreApart

abbrev pub slugs_of : List Room → List ℕ
slugs_of [] = []
slugs_of (r ∷ rs) = r.invite_slug ∷ slugs_of rs

-- What `create_room` comes to for a user, with these slugs to draw.
abbrev pub IsCreated : List Room → ℕ → List ℕ → Result (Room × Bool) × RoomTable → Type 0
IsCreated rooms user_id slugs (ok (room, existing), t') =
    (hosts_live user_id room ≡ true)
    × (if existing
        then (active_room rooms user_id ≡ some room) × (t'.rooms ≡ rooms)
        else (active_room rooms user_id ≡ none)
          × (has room.invite_slug (slugs_of rooms) ≡ false)
          × (t'.rooms ≡ rooms ++ room ∷ []))
IsCreated rooms user_id slugs (err e, t') =
    (e ≡ app service_unavailable)
    × (t'.rooms ≡ rooms)
    × (active_room rooms user_id ≡ none)
    × All (λ slug. has slug (slugs_of rooms) ≡ true) slugs

-- Without a conflict the slug is new, and the user hosts no active room.
no_conflict :
    (slug user_id : ℕ) (rooms : List Room)
    → conflicts slug user_id rooms ≡ false
    → (has slug (slugs_of rooms) ≡ false) × (active_room rooms user_id ≡ none)
unfolding active_room
no_conflict slug user_id [] h = (refl, refl)
no_conflict slug user_id (r ∷ rs) h =
    let rest = no_conflict slug user_id rs (ground arith) in (ground arith, ground arith)

-- With one, either the user hosts an active room or the slug is taken.
conflict :
    (slug user_id : ℕ) (rooms : List Room)
    → conflicts slug user_id rooms ≡ true
    → active_room rooms user_id ≡ none
    → has slug (slugs_of rooms) ≡ true
unfolding active_room
conflict slug user_id [] h e = h
conflict slug user_id (r ∷ rs) h e = elim (Bool-cases (hosts_live user_id r)) [
  | inl y ↦ absurd (let f = rw y at e in cc)
  | inr n ↦
      let rest : conflicts slug user_id rs ≡ true → has slug (slugs_of rs) ≡ true =
        λ c. conflict slug user_id rs c (rw n at e) in
      ground arith
]

active_room-hosts :
    (user_id : ℕ) (rooms : List Room) (r : Room)
    → active_room rooms user_id ≡ some r
    → hosts_live user_id r ≡ true
unfolding active_room
active_room-hosts user_id [] r h = absurd cc
active_room-hosts user_id (x ∷ xs) r h = elim (Bool-cases (hosts_live user_id x)) [
  | inl y ↦ let same : x ≡ r = let f = rw y at h in cc in rw (← same) y
  | inr n ↦ active_room-hosts user_id xs r (rw n at h)
]

-- A further slug that is taken changes nothing.
IsCreated-cons :
    (rooms : List Room) (user_id slug : ℕ) (slugs : List ℕ) (x : Result (Room × Bool) × RoomTable)
    → has slug (slugs_of rooms) ≡ true
    → IsCreated rooms user_id slugs x
    → IsCreated rooms user_id (slug ∷ slugs) x
IsCreated-cons rooms user_id slug slugs (ok (room, existing), t') taken h = h
IsCreated-cons rooms user_id slug slugs (err e, t') taken (a, b, c, d) = (a, b, c, (taken, d))

module _ (user_id round_count time_limit_sec now : ℕ) where
  try_slugs-IsCreated :
      (t : RoomTable) (slugs : List ℕ)
      → active_room t.rooms user_id ≡ none
      → IsCreated t.rooms user_id slugs (try_slugs t user_id round_count time_limit_sec now slugs)
  unfolding try_slugs
  try_slugs-IsCreated t [] none_yet = (refl, refl, none_yet, tt)
  try_slugs-IsCreated t (slug ∷ slugs) none_yet =
      elim (Bool-cases (conflicts slug user_id t.rooms)) [
        | inl y ↦ rw y (
            by_first (active_room t.rooms user_id) none_yet
              (conflict slug user_id t.rooms y none_yet)
              (try_slugs-IsCreated (record t { next_id = t.next_id + 1 }) slugs none_yet))
        | inr n ↦
            let (fresh, _) = no_conflict slug user_id t.rooms n in
            rw n (ground arith, (none_yet, fresh, refl))
      ]
    where
      used : RoomTable
      used = record t { next_id = t.next_id + 1 }

      later : Result (Room × Bool) × RoomTable
      later = try_slugs used user_id round_count time_limit_sec now slugs

      by_first :
          (o : Option Room)
          → o ≡ none
          → has slug (slugs_of t.rooms) ≡ true
          → IsCreated t.rooms user_id slugs later
          → IsCreated t.rooms user_id
              (slug ∷ slugs)
              (elim o [ some existing ↦ (ok (existing, true), used) | none ↦ later ])
      by_first none e taken h = IsCreated-cons t.rooms user_id slug slugs later taken h
      by_first (some r) e taken h = absurd cc

  conflict-of_active :
      (slug : ℕ) (rooms : List Room) (r : Room)
      → active_room rooms user_id ≡ some r
      → conflicts slug user_id rooms ≡ true
  conflict-of_active slug rooms r e = elim (Bool-cases (conflicts slug user_id rooms)) [
    | inl y ↦ y
    | inr n ↦ let (_, f) = no_conflict slug user_id rooms n in absurd cc
  ]

  -- A user who hosts an active room already is given it.
  try_slugs-existing :
      (t : RoomTable) (slug : ℕ) (slugs : List ℕ) (r : Room)
      → active_room t.rooms user_id ≡ some r
      → IsCreated t.rooms user_id
          (slug ∷ slugs)
          (try_slugs t user_id round_count time_limit_sec now (slug ∷ slugs))
  unfolding try_slugs
  try_slugs-existing t slug slugs r e =
      rw (try_slugs, conflict-of_active slug t.rooms r e, e)
        (active_room-hosts user_id t.rooms r e, (e, refl))

apart_new :
    (user_id : ℕ) (room : Room) (rooms : List Room)
    → hosts_live user_id room ≡ true
    → active_room rooms user_id ≡ none
    → has room.invite_slug (slugs_of rooms) ≡ false
    → All (λ x. All (AreApart x) (room ∷ [])) rooms
unfolding active_room
apart_new user_id room [] h e f = tt
apart_new user_id room (x ∷ xs) h e f = elim (Bool-cases (hosts_live user_id x)) [
  | inl y ↦ absurd (let g = rw y at e in cc)
  | inr n ↦
      let rest = apart_new user_id room xs h (rw n at e) (ground arith) in
      ((ground arith, tt), rest)
]

IsUnique-of_created :
    (rooms : List Room) (user_id : ℕ) (slugs : List ℕ) (x : Result (Room × Bool) × RoomTable)
    → IsUnique rooms
    → IsCreated rooms user_id slugs x
    → IsUnique x.1.rooms
IsUnique-of_created rooms user_id slugs (err e, t') u h = rw h.1 u
IsUnique-of_created rooms user_id slugs (ok (room, true), t') u h = rw h.1.1 u
IsUnique-of_created rooms user_id slugs (ok (room, false), t') u h = rw h.1.2 (
    AllPairs-append AreApart rooms (room ∷ []) u (tt, tt)
      (apart_new user_id room rooms h.0 h.1.0 h.1.1))

-- Where the rooms are unique and a slug is drawn, `create_room` gives the user's active room, if
-- there is one, and else adds an active room of the user with a slug that no other has. It gives up
-- only where each of the first five slugs is taken. The rooms stay unique: no two have one slug, or
-- one host and are both active.
pub create_room-IsCreated :
    (t : RoomTable) (user_id round_count time_limit_sec now slug : ℕ) (slugs : List ℕ)
    → IsUnique t.rooms
    → IsCreated t.rooms user_id
        (take 5 (slug ∷ slugs))
        (create_room t user_id round_count time_limit_sec now (slug ∷ slugs))
      × IsUnique (create_room t user_id round_count time_limit_sec now (slug ∷ slugs)).1.rooms
unfolding create_room
create_room-IsCreated t user_id round_count time_limit_sec now slug slugs u =
    let made = by_active (active_room t.rooms user_id) refl in
    (made, IsUnique-of_created t.rooms user_id (take 5 (slug ∷ slugs)) _ u made)
  where
    by_active :
        (o : Option Room)
        → active_room t.rooms user_id ≡ o
        → IsCreated t.rooms user_id
            (take 5 (slug ∷ slugs))
            (try_slugs t user_id round_count time_limit_sec now (take 5 (slug ∷ slugs)))
    by_active none e =
        try_slugs-IsCreated user_id round_count time_limit_sec now t (take 5 (slug ∷ slugs)) e
    by_active (some r) e =
        try_slugs-existing user_id round_count time_limit_sec now t slug (take 4 slugs) r e
