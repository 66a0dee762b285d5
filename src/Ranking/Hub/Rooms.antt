-- ===== src/Ranking/Hub/Rooms.antt =====
-- websocket.go: the map of rooms.
use my_oj.Prelude.{
  ◌≡◌, refl, sym, ap, subst, ◌∙◌, true, false, ◌||◌, none, List, [], ◌∷◌, ◌++◌, ◌==◌, if◌then◌else◌,
  Bool-cases, inl, inr, arith,
}
use my_oj.Prelude.Assoc.{get, set, delete, get-set, get-delete}
use my_oj.Prelude.Sets.{has, Distinct, has-append}
use my_oj.Models.Types.{Key}
use my_oj.Ranking.Hub.{Client, members, room_of, without_client}

-- `set` and `delete` as the rooms show them.
pub room_of-set :
    (k j : Key) (room : List Client) (m : List (Key × List Client))
    → room_of j (set k room m) ≡ (if k == j then room else room_of j m)
room_of-set k j room m = rw (get-set k j room m) (ground arith)

pub room_of-without_client :
    (k j : Key) (room : List Client) (m : List (Key × List Client))
    → room_of j (without_client k room m) ≡ (if k == j then room else room_of j m)
room_of-without_client k j [] m = rw (get-delete k j m) (ground arith)
room_of-without_client k j (c ∷ room) m = room_of-set k j (c ∷ room) m

abbrev pub all_clients : List (Key × List Client) → List Client
all_clients [] = []
all_clients ((k, room) ∷ m) = room ++ all_clients m

module _ (contest_of : Client → Key) where
  -- Clients of one contest.
  abbrev pub IsRoom : Key → List Client → Type 0
  IsRoom k room = Distinct room × ((c : Client) → has c room ≡ true → contest_of c ≡ k)

  -- Each contest has one room, and each client stands once in the room of its contest.
  abbrev pub IsTidy : List (Key × List Client) → Type 0
  IsTidy [] = Unit
  IsTidy ((k, room) ∷ m) = IsRoom k room × (get k m ≡ none) × IsTidy m

  pub set-IsTidy :
      (k : Key) (room : List Client) (m : List (Key × List Client))
      → IsRoom k room
      → IsTidy m
      → IsTidy (set k room m)
  unfolding set get
  set-IsTidy k room [] r tidy = (r, refl, tt)
  set-IsTidy k room ((j, old) ∷ m) r (o, alone, tidy) = elim (Bool-cases (j == k)) [
    | inl e ↦
        let same : j ≡ k = ground arith in rw e (r, subst (λ i. get i m ≡ none) same alone, tidy)
    | inr e ↦ rw e (o, ground (arith, get-set k j room m), set-IsTidy k room m r tidy)
  ]

  pub delete-IsTidy : (k : Key) (m : List (Key × List Client)) → IsTidy m → IsTidy (delete k m)
  unfolding delete
  delete-IsTidy k [] tidy = tt
  delete-IsTidy k ((j, old) ∷ m) (o, alone, tidy) = elim (Bool-cases (j == k)) [
    | inl e ↦ rw e (delete-IsTidy k m tidy)
    | inr e ↦ rw e (o, ground (arith, get-delete k j m), delete-IsTidy k m tidy)
  ]

  pub without_client-IsTidy :
      (k : Key) (room : List Client) (m : List (Key × List Client))
      → IsRoom k room
      → IsTidy m
      → IsTidy (without_client k room m)
  without_client-IsTidy k [] m r tidy = delete-IsTidy k m tidy
  without_client-IsTidy k (c ∷ room) m r tidy = set-IsTidy k (c ∷ room) m r tidy

  pub room_of-IsRoom : (k : Key) (m : List (Key × List Client)) → IsTidy m → IsRoom k (room_of k m)
  unfolding get has
  room_of-IsRoom k [] tidy = (tt, λ c h. cc)
  room_of-IsRoom k ((j, room) ∷ m) (r, alone, tidy) = elim (Bool-cases (j == k)) [
    | inl e ↦ let same : j ≡ k = ground arith in rw e (subst (λ i. IsRoom i room) same r)
    | inr e ↦ rw e (room_of-IsRoom k m tidy)
  ]

  -- A client stands in some room exactly when it stands in that of its contest.
  pub has-all_clients :
      (c : Client) (m : List (Key × List Client))
      → IsTidy m
      → has c (all_clients m) ≡ has c (room_of (contest_of c) m)
  unfolding get has
  has-all_clients c [] tidy = refl
  has-all_clients c ((j, room) ∷ m) ((once, placed), alone, tidy) =
      has-append c room (all_clients m)
      ∙ ap (λ b. has c room || b) (has-all_clients c m tidy)
      ∙ elim (Bool-cases (j == contest_of c)) [
        | inl e ↦
            let same : j ≡ contest_of c = ground arith in
            let none_there : room_of (contest_of c) m ≡ [] =
              ap members (subst (λ i. get i m ≡ none) same alone) in
            rw (e, none_there) (ground arith)
        | inr e ↦ rw e (ground (arith, placed c))
      ]

  disjoint-append :
      (xs ys : List Client)
      → Distinct xs
      → Distinct ys
      → ((c : Client) → has c xs ≡ true → has c ys ≡ false)
      → Distinct (xs ++ ys)
  unfolding has
  disjoint-append [] ys d e apart = e
  disjoint-append (x ∷ xs) ys (out, d) e apart = (
    ground (arith, has-append x xs ys, apart x),
    disjoint-append xs ys d e (λ c h. apart c (ground arith)),
  )

  pub all_clients-Distinct : (m : List (Key × List Client)) → IsTidy m → Distinct (all_clients m)
  unfolding has
  all_clients-Distinct [] tidy = tt
  all_clients-Distinct ((j, room) ∷ m) ((once, placed), alone, tidy) =
      disjoint-append room (all_clients m) once (all_clients-Distinct m tidy) (λ c h.
        has-all_clients c m tidy
        ∙ ap (λ o. has c (members o)) (subst (λ i. get i m ≡ none) (sym (placed c h)) alone))
