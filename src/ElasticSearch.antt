-- ===== src/ElasticSearch.antt =====
-- mod/ext/elasticsearch/ElasticSearch.cpp, with the part of Qt's JSON classes that its callers use. The
-- server is a parameter: what it answers to a request in a state, and the state that a POST leaves. A body is
-- the JSON document whose text is sent.
pub mod Documents
use pinetd.Prelude.{
  ℕ, ◌%◌, ◌^◌, if◌then◌else◌, List, [], ◌∷◌, ◌++◌, Bool, true, false, Bytes, codes, bytes_eq,
}

-- `QJsonValue`, `QJsonObject` and `QJsonArray`. (A double is a natural number: the program uses no other.)
mutual
  pub data Json : Type 0 where
    undefined : Json
    boolean : Bool → Json
    double : ℕ → Json
    string : Bytes → Json
    object : Object → Json
    array : Items → Json

  pub data Object : Type 0 where
    empty : Object
    field : Bytes → Json → Object → Object

  pub data Items : Type 0 where
    end : Items
    item : Json → Items → Items

-- `QJsonObject::value`
unfoldable pub value : Bytes → Object → Json
value k empty = undefined
value k (field j v o) = if bytes_eq j k then v else value k o

-- `QJsonObject::contains`
unfoldable pub contains_key : Bytes → Object → Bool
contains_key k empty = false
contains_key k (field j v o) = if bytes_eq j k then true else contains_key k o

-- `QJsonObject::insert`
unfoldable pub insert : Bytes → Json → Object → Object
insert k v empty = field k v empty
insert k v (field j w o) = if bytes_eq j k then field j v o else field j w (insert k v o)

-- An object by the calls of `insert` that fill it.
unfoldable pub object_of : List (Bytes × Json) → Object → Object
unfolding insert
object_of [] o = o
object_of ((k, v) ∷ kvs) o = object_of kvs (insert k v o)

-- `toObject`, `toString`, `toDouble`, and `toArray().at(0)`, with the defaults for another type.
unfoldable pub to_object : Json → Object
to_object (object o) = o
to_object _ = empty

unfoldable pub to_string : Json → Bytes
to_string (string s) = s
to_string _ = []

unfoldable pub to_double : Json → ℕ
to_double (double n) = n
to_double _ = 0

unfoldable pub first_item : Json → Json
first_item (array (item v vs)) = v
first_item _ = undefined

-- `QNetworkReply::error()`, as far as it is asked, and the reply with its body.
pub data NetworkError : Type 0 where
  no_error : NetworkError
  content_not_found : NetworkError
  other_error : NetworkError

pub record Reply : Type 0 where
  pub error : NetworkError
  pub body : Json

-- The server, by the path of the request.
pub record Server (S : Type 0) : Type 0 where
  pub head : Bytes → S → Reply
  pub get : Bytes → S → Reply
  pub post : Bytes → Object → S → Reply × S
  pub search : Bytes → Object → S → Reply

abbrev pub slash : Bytes
slash = codes "/"

-- "/index/type/id"
unfoldable pub path : Bytes → Bytes → Bytes → Bytes
path index type id = slash ++ (index ++ (slash ++ (type ++ (slash ++ id))))

unfoldable pub is_found : NetworkError → Bool
is_found no_error = true
is_found content_not_found = false
is_found other_error = false

module _ {S : Type 0} (server : Server S) where
  -- `ElasticSearch::contains`
  unfoldable pub contains : Bytes → Bytes → Bytes → S → Bool
  unfolding path is_found
  contains id ix type s = is_found (server.head (path ix type id) s).error

  -- `ElasticSearch::get`
  unfoldable pub get : Bytes → Bytes → Bytes → S → Object
  unfolding path is_found to_object value
  get id ix type s =
      let reply = server.get (path ix type id) s in
      if is_found reply.error
      then to_object (value (codes "_source") (to_object reply.body))
      else empty

  -- `ElasticSearch::index`: its result is always the empty string, whatever the server says.
  unfoldable pub index : Object → Bytes → Bytes → S → Bytes × S
  unfolding path
  index o ix type s = ([], (server.post (path ix type []) o s).1)

  -- `ElasticSearch::search`
  unfoldable pub search : Object → Bytes → S → Object
  unfolding is_found to_object
  search body ix s =
      let reply = server.search (slash ++ (ix ++ codes "/_search")) body s in
      if is_found reply.error then to_object reply.body else empty
