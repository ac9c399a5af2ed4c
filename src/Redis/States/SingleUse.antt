-- ===== src/Redis/States/SingleUse.antt =====
-- A state of an OAuth login serves once.
use identra.Common.{
  String, ◌≡◌, refl, sym, ◌∙◌, Option, none, some, ◌<◌, arith, inl, inr, eq_refl, Bool-cases,
  Option-cases,
}
use identra.Common.Exec.{ok}
use identra.Oauth.StateStore.{State}
use identra.Redis.{RedisLaws, send}
use identra.Redis.States.{StateJson, StateValue, RedisStateStore, key, add, consume, decoded}

module _ {W : Type 0} (json : StateJson) (s : RedisStateStore W) where
  -- What the server holds for a state.
  abbrev pub value_of : String → W → Option String
  value_of state w = s.rdb.get (key json s state) w

  module _ (laws : RedisLaws s.rdb) (positive : 0 < s.ttl)
      (reads : (val : StateValue) (text : String)
        → json.marshal val ≡ some text
        → json.unmarshal text ≡ some val) where
    add-there :
        (state provider redirect_url : String) (w : W) {w' : W}
        → add json s state provider redirect_url w ≡ (ok tt, w')
        → (text : String) × (json.marshal
              (record { provider = provider; redirect_url = redirect_url })
            ≡ some text)
          × (value_of state w' ≡ some text)
    unfolding add send
    add-there state provider redirect_url w {w'} h =
        elim (Option-cases
          (json.marshal (record { provider = provider; redirect_url = redirect_url }))) [
            | inl lost ↦ absurd (ground arith)
            | inr (text, written) ↦ elim (Bool-cases (s.rdb.connection w).0) [
              | inr down ↦ absurd (ground arith)
              | inl up ↦
                  let v = (s.rdb.connection w).1 in
                  let after : s.rdb.set (key json s state) text s.ttl v ≡ w' = ground arith in
                  (
                    text,
                    written,
                    rw
                        (
                          sym after,
                          laws.get_set (key json s state) (key json s state) text s.ttl v positive,
                          eq_refl (key json s state),
                        )
                        refl,
                  )
            ]
          ]

    -- A consume that answers a state has removed it.
    consume-takes :
        (state : String) (w : W) {r : Option State} {v : W}
        → consume json s state w ≡ (ok r, v)
        → (decoded json s (value_of state (s.rdb.connection w).1) ≡ ok r)
          × (value_of state v ≡ none)
    unfolding consume send
    consume-takes state w {r} {v} h = elim (Bool-cases (s.rdb.connection w).0) [
      | inr down ↦ absurd (ground arith)
      | inl up ↦
          let u = (s.rdb.connection w).1 in
          elim (Option-cases (value_of state u)) [
            | inl absent ↦ (ground arith, ground arith)
            | inr (text, there) ↦
                let after : s.rdb.del (key json s state) u ≡ v = ground arith in
                (
                  ground arith,
                  rw
                      (
                        sym after,
                        laws.get_del (key json s state) (key json s state) u,
                        eq_refl (key json s state),
                      )
                      refl,
                )
          ]
    ]

    -- Over a Redis that keeps its documentation and an encoding that is read back, for a time to live that is positive: after an
    -- add, while the state has not expired, a consume that answers returns the provider and the
    -- redirect URL of the add, and the next one that answers, at once, returns nothing.
    pub add-consume :
        (state provider redirect_url : String) (w w' v v' : W) {r r' : Option State}
        → add json s state provider redirect_url w ≡ (ok tt, w')
        → value_of state (s.rdb.connection w').1 ≡ value_of state w'
        → consume json s state w' ≡ (ok r, v)
        → consume json s state v ≡ (ok r', v')
        → (r ≡ some (record { provider = provider; redirect_url = redirect_url; expires_at = 0 }))
          × (r' ≡ none)
    add-consume state provider redirect_url w w' v v' {r} {r'} added lives first second =
        let (text, written, there) = add-there state provider redirect_url w added in
        let (answer, gone) = consume-takes state w' first in
        let (again, _) = consume-takes state v second in
        let val =
          reads (record { provider = provider; redirect_url = redirect_url }) text written in
        let read : decoded json s (some text) ≡ ok r = rw (lives ∙ there) at answer in
        let none_left : value_of state (s.rdb.connection v).1 ≡ none =
          ground (arith, laws.settles (key json s state) v) in
        (ground arith, ground arith)
