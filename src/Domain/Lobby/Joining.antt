-- ===== src/Domain/Lobby/Joining.antt =====
-- `join_room`: who enters, and what a join keeps of the room.
use emoselfie_be.Prelude.{
  ℕ, ◌+◌, ◌<◌, ◌≡◌, refl, sym, ◌∙◌, Bool, true, false, ◌&&◌, Option, none, some, List, [], ◌∷◌,
  arith, leb, ◌==◌, ==_iff, length, All, ◌⊎◌, length-map, Bool-cases, inl, inr,
}
use emoselfie_be.Prelude.Sets.{has, IsDistinct}
use emoselfie_be.Prelude.Every.{All-append}
use emoselfie_be.Core.Errors.{ok, >>=-eq-ok, ok-pair_inj}
use emoselfie_be.Db.{Participant, Room, find}
use emoselfie_be.Domain.Enums.{is_waiting}
use emoselfie_be.Domain.Store.{Store, put_member}
use emoselfie_be.Domain.Game.{require_open}
use emoselfie_be.Domain.Lobby.{
  is_occupying, capacity, occupants, colors, enter, new_member, returned, admit, if_occupying,
  is_user, join_room, normalize_nickname, entry_status,
}
use emoselfie_be.Domain.Lobby.Capacity.{
  choose_color-some, member_ids, IsSeated, seat_new, seat_old, ids-put, IsVacant,
}

-- A room with seats in order, whose identity column is ahead of its members.
abbrev pub HasSeats : Store → Type 0
HasSeats st = IsSeated st.members × All (λ x. x.id < st.next_id) st.members

has-id_lt : (i : ℕ) (ms : List Participant) → All (λ x. x.id < i) ms → has i (member_ids ms) ≡ false
has-id_lt i [] h = refl
has-id_lt i (m ∷ ms) h = ground (arith, has-id_lt i ms)

entry_status-occupies :
    (m : Participant) (room : Room) → m.status ≡ entry_status room.status → is_occupying m ≡ true
entry_status-occupies m room h = elim (Bool-cases (is_waiting room.status)) [
  | inl y ↦ ground arith
  | inr n ↦ ground arith
]

IsVacant-absent : (i : ℕ) (ms : List Participant) → has i (member_ids ms) ≡ false → IsVacant i ms
IsVacant-absent i [] h = tt
IsVacant-absent i (m ∷ ms) h = (ground arith, IsVacant-absent i ms (ground arith))

IsVacant-eq : {i j : ℕ} (ms : List Participant) → i ≡ j → IsVacant i ms → IsVacant j ms
IsVacant-eq [] e h = tt
IsVacant-eq (x ∷ xs) e h = (rw (← e) h.0, IsVacant-eq xs e h.1)

find-mem :
    (p : Participant → Bool) (m : Participant) (ms : List Participant)
    → find p ms ≡ some m
    → has m.id (member_ids ms) ≡ true
find-mem p m [] f = absurd cc
find-mem p m (x ∷ xs) f = elim (Bool-cases (p x)) [
  | inl y ↦ let e : x.id ≡ m.id = ground arith in ground arith
  | inr n ↦ let h = find-mem p m xs (rw n at f) in ground arith
]

IsVacant-find :
    (p : Participant → Bool) (m : Participant) (ms : List Participant)
    → IsDistinct (member_ids ms)
    → find p ms ≡ some m
    → is_occupying m ≡ false
    → IsVacant m.id ms
IsVacant-find p m [] d f h = tt
IsVacant-find p m (x ∷ xs) d f h = elim (Bool-cases (p x)) [
  | inl y ↦
      let e : x.id ≡ m.id = ground arith in
      let s : is_occupying x ≡ false = ground arith in
      (ground arith, IsVacant-eq xs e (IsVacant-absent x.id xs d.0))
  | inr n ↦ by_ids (IsVacant-find p m xs d.1 (rw n at f) h) (find-mem p m xs (rw n at f))
]
  where
    by_ids : IsVacant m.id xs → has m.id (member_ids xs) ≡ true → IsVacant m.id (x ∷ xs)
    by_ids rest inside = (apart (Bool-cases (x.id == m.id)), rest)
      where
        apart :
            (((x.id == m.id) ≡ true) ⊎ ((x.id == m.id) ≡ false))
            → ((x.id == m.id) && is_occupying x) ≡ false
        apart (inl y) = absurd (let e = (==_iff x.id m.id).0 y in let k = (rw e at d.0) in cc)
        apart (inr n) = rw n refl

-- Below the capacity a user is let in, with a colour that nobody in the room has.
admit-ok :
    (st : Store) (old : Option Participant) (user_id : ℕ) (text : List ℕ) (now : ℕ)
    → length (occupants st.members) < capacity
    → (c : ℕ) × (admit st old user_id text now ≡ ok (enter st old user_id text c now))
      × (has c (colors (occupants st.members)) ≡ false)
unfolding admit
admit-ok st old user_id text now lt =
    let (c, found, free) =
      choose_color-some old (colors (occupants st.members))
        (rw (length-map (λ (m : Participant). m.color_tag) (occupants st.members)) lt) in
    let seats : leb capacity (length (occupants st.members)) ≡ false = ground arith in
    (c, rw (seats, found) refl, free)

enter-HasSeats :
    (st : Store) (old : Option Participant) (user_id : ℕ) (text : List ℕ) (c now : ℕ)
    → HasSeats st
    → ((m : Participant) → old ≡ some m → IsVacant m.id st.members)
    → length (occupants st.members) < capacity
    → has c (colors (occupants st.members)) ≡ false
    → HasSeats (enter st old user_id text c now).1
      × (is_occupying (enter st old user_id text c now).0 ≡ true)
enter-HasSeats st none user_id text c now h v lt free =
    let m = new_member st.next_id st.room user_id text c now in
    let o = entry_status-occupies m st.room refl in
    (
      (
        seat_new m st.members h.0 o (has-id_lt st.next_id st.members h.1) free lt,
        All-append _ st.members (m ∷ []) (weaken st.members h.1) (omega arith, tt),
      ),
      o,
    )
  where
    weaken :
        (ms : List Participant)
        → All (λ x. x.id < st.next_id) ms
        → All (λ x. x.id < st.next_id + 1) ms
    weaken [] a = tt
    weaken (x ∷ xs) a = (omega (arith, a.0), weaken xs a.1)
enter-HasSeats st (some p) user_id text c now h v lt free =
    let m = returned p st.room text c now in
    let o = entry_status-occupies m st.room refl in
    let (colours, count) = seat_old m st.members h.0.0 (v p refl) o h.0.1 free in
    (
      (
        (rw (ids-put m st.members) h.0.0, colours, omega (arith, count, lt)),
        put_below m st.members h.1,
      ),
      o,
    )
  where
    put_below :
        (m : Participant) (ms : List Participant)
        → All (λ x. x.id < st.next_id) ms
        → All (λ x. x.id < st.next_id) (put_member m ms)
    put_below m [] a = tt
    put_below m (x ∷ xs) a = ground (arith, put_below m xs a.1)

admit-HasSeats :
    (st st' : Store) (old : Option Participant) (user_id : ℕ) (text : List ℕ) (now : ℕ)
    (p : Participant)
    → HasSeats st
    → ((m : Participant) → old ≡ some m → IsVacant m.id st.members)
    → admit st old user_id text now ≡ ok (p, st')
    → HasSeats st' × (is_occupying p ≡ true)
unfolding admit
admit-HasSeats st st' old user_id text now p h v e =
    elim (Bool-cases (leb capacity (length (occupants st.members)))) [
      | inl full ↦ absurd (let k = rw full at e in cc)
      | inr room ↦
          let lt : length (occupants st.members) < capacity = ground arith in
          let (c, done, free) = admit-ok st old user_id text now lt in
          let (ep, es) = ok-pair_inj (sym done ∙ e) in
          rw (← ep, ← es) (enter-HasSeats st old user_id text c now h v lt free)
    ]

seated :
    (st : Store) (old : Option Participant) (user_id : ℕ) (text : List ℕ) (now : ℕ)
    → length (occupants st.members) < capacity
    → (p : Participant) × (st' : Store) × (if_occupying old st (admit st old user_id text now)
        ≡ ok (p, st'))
seated st none user_id text now lt =
    let (c, done, _) = admit-ok st none user_id text now lt in
    let r = enter st none user_id text c now in (r.0, r.1, done)
seated st (some m) user_id text now lt = elim (Bool-cases (is_occupying m)) [
  | inl y ↦ (m, st, rw y refl)
  | inr n ↦
      let (c, done, _) = admit-ok st (some m) user_id text now lt in
      let r = enter st (some m) user_id text c now in (r.0, r.1, rw n done)
]

module _ (normal : List ℕ → List ℕ) (is_alnum : ℕ → Bool) where
  -- Joining keeps the seats of a room in order, where they were: different ids, at most twelve in the room, all in
  -- different colours. Whoever joins is then in the room.
  pub join_room-HasSeats :
      (st st' : Store) (user_id : ℕ) (nickname : List ℕ) (now : ℕ) (p : Participant)
      → HasSeats st
      → join_room normal is_alnum st user_id nickname now ≡ ok (p, st')
      → HasSeats st' × (is_occupying p ≡ true)
  unfolding join_room
  join_room-HasSeats st st' user_id nickname now p h e =
      let (_, opened, e₁) = >>=-eq-ok (require_open st.room) _ e in
      let (text, named, e₂) = >>=-eq-ok (normalize_nickname normal is_alnum nickname) _ e₁ in
      by_old text (find (is_user user_id) st.members) refl e₂
    where
      by_old :
          (text : List ℕ) (old : Option Participant)
          → find (is_user user_id) st.members ≡ old
          → if_occupying old st (admit st old user_id text now) ≡ ok (p, st')
          → HasSeats st' × (is_occupying p ≡ true)
      by_old text none f k = admit-HasSeats st st' none user_id text now p h (λ m bad. absurd cc) k
      by_old text (some m) f k = elim (Bool-cases (is_occupying m)) [
        | inl y ↦ let (ep, es) = ok-pair_inj (rw y at k) in rw (← ep, ← es) (h, y)
        | inr n ↦
            admit-HasSeats st st' (some m) user_id text now p h
              (λ q same.
                let e : m.id ≡ q.id = cc in
                IsVacant-eq st.members e (IsVacant-find (is_user user_id) m st.members h.0.0 f n))
              (rw n at k)
      ]

  -- An open room with a free seat takes every user with a valid nickname: the search for a colour
  -- does not fail.
  pub join_room-ok :
      (st : Store) (user_id : ℕ) (nickname text : List ℕ) (now : ℕ)
      → require_open st.room ≡ ok tt
      → normalize_nickname normal is_alnum nickname ≡ ok text
      → length (occupants st.members) < capacity
      → (p : Participant) × (st' : Store) × (join_room normal is_alnum st user_id nickname now
          ≡ ok (p, st'))
  unfolding join_room
  join_room-ok st user_id nickname text now opened named lt =
      let (p, st', e) = seated st (find (is_user user_id) st.members) user_id text now lt in
      (p, st', rw (opened, named) e)
