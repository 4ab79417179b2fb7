-- ===== src/Store/Redis/Server.antt =====
-- What Redis documents of the commands that stores/redis.go uses.
use agscheduler.Base.{
  ◌≡◌, ◌≢◌, String, Option, none, some, List, [], ◌∷◌, inr, if◌then◌else◌, ◌==◌, ◌&&◌, All,
}
use agscheduler.Base.Int.{ℤ, IsAtMost}
use agscheduler.Errors.{Error}
use agscheduler.Store.Redis.{
  Command, hset, hdel, zadd, zrem, del, Reply, absent, present, failed, Client,
}

-- What a command does to one field of a hash, as Redis documents it, where the commands on sorted
-- sets are for another key.
unfoldable pub field_after : Command → (key field : String) → Reply → Reply
field_after (hset k f v) key field r = if (k == key) && (f == field) then present v else r
field_after (hdel k f) key field r = if (k == key) && (f == field) then absent else r
field_after (zadd k s m) key field r = r
field_after (zrem k m) key field r = r
field_after (del k) key field r = if k == key then absent else r

unfoldable pub field_after_all : List Command → (key field : String) → Reply → Reply
unfolding field_after
field_after_all [] key field r = r
field_after_all (c ∷ cs) key field r = field_after_all cs key field (field_after c key field r)

-- What a command does to the score of a member of a sorted set, as Redis documents it.
unfoldable pub score_after : Command → (key member : String) → Option ℤ → Option ℤ
score_after (hset k f v) key member r = r
score_after (hdel k f) key member r = r
score_after (zadd k s m) key member r = if (k == key) && (m == member) then some s else r
score_after (zrem k m) key member r = if (k == key) && (m == member) then none else r
score_after (del k) key member r = if k == key then none else r

unfoldable pub score_after_all : List Command → (key member : String) → Option ℤ → Option ℤ
unfolding score_after
score_after_all [] key member r = r
score_after_all (c ∷ cs) key member r = score_after_all cs key member (score_after c key member r)

-- The command is for the hash `h` or for the sorted set `z`, by its kind.
abbrev pub IsOn : (h z : String) → Command → Type 0
IsOn h z (hset k f v) = k ≡ h
IsOn h z (hdel k f) = k ≡ h
IsOn h z (zadd k s m) = k ≡ z
IsOn h z (zrem k m) = k ≡ z
IsOn h z (del k) = Unit

-- What Redis documents, for a server that answers and two different keys, of which `h` holds a hash
-- or nothing and `z` a sorted set or nothing (`Ready`): commands for the right keys succeed and do
-- to the hash and to the sorted set what they are for.
pub record IsRedis {D : Type 0} (client : Client D) (Ready : D → (h z : String) → Type 0)
    (scores : D → (z member : String) → Option ℤ) : Type 0 where
  pub executes :
      (d : D) (h z i : String) (commands : List Command)
      → Ready d h z
      → All (IsOn h z) commands
      → client.hget h i (client.pipelined commands d).1
        ≡ field_after_all commands h i (client.hget h i d)
  pub answers : (d : D) (h z i : String) (e : Error) → Ready d h z → client.hget h i d ≢ failed e
  pub runs :
      (d : D) (h z : String) (commands : List Command)
      → Ready d h z
      → All (IsOn h z) commands
      → ((client.pipelined commands d).0 ≡ none) × Ready (client.pipelined commands d).1 h z
  pub scored :
      (d : D) (h z i : String) (commands : List Command)
      → Ready d h z
      → All (IsOn h z) commands
      → scores (client.pipelined commands d).1 z i ≡ score_after_all commands z i (scores d z i)
  pub ranges :
      (d : D) (h z : String)
      → Ready d h z
      → (first : List (String × ℤ)) × (client.zrange_first z d ≡ inr first)
        × (first ≡ [] → (i : String) → scores d z i ≡ none)
        × ((m : String) (x : ℤ) (rest : List (String × ℤ)) (i : String) (y : ℤ)
            → first ≡ (m, x) ∷ rest
            → scores d z i ≡ some y
            → IsAtMost x y)
