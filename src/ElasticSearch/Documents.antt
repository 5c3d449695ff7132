-- ===== src/ElasticSearch/Documents.antt =====
-- The server's documents, as `contains` and `get` find them after `index`.
use pinetd.Prelude.{◌≡◌, refl, ap, sym, ◌∙◌, [], Bytes, length}
use pinetd.Bitcoin.Block.{to_hex}
use pinetd.ElasticSearch.{Object, Server, path, is_found, contains, get, index}

-- The server does what its documentation says: a POST of a document to the path of a type, without an identifier,
-- stores it under one that the server makes. That is never the 64 hexadecimal digits of a hash of 32 bytes, so that
-- what is found under the path of a hash, or not found, does not change. HEAD is GET without the body.
pub record IsServer {S : Type 0} (server : Server S) : Type 0 where
  pub post_get :
      (ix type ix' type' h : Bytes) (o : Object) (s : S)
      → length h ≡ 32
      → server.get (path ix' type' (to_hex h)) (server.post (path ix type []) o s).1
        ≡ server.get (path ix' type' (to_hex h)) s
  pub head_error : (q : Bytes) (s : S) → (server.head q s).error ≡ (server.get q s).error

module _ {S : Type 0} (server : Server S) (ok : IsServer server) where
  pub contains-index :
      (o : Object) (ix type ix' type' h : Bytes) (s : S)
      → length h ≡ 32
      → contains server (to_hex h) ix' type' (index server o ix type s).1
        ≡ contains server (to_hex h) ix' type' s
  unfolding contains index
  contains-index o ix type ix' type' h s l =
      let q = path ix' type' (to_hex h) in
      ap is_found (
        ok.head_error q (server.post (path ix type []) o s).1
        ∙ ap (λ r. r.error) (ok.post_get ix type ix' type' h o s l)
        ∙ sym (ok.head_error q s))

  pub get-index :
      (o : Object) (ix type ix' type' h : Bytes) (s : S)
      → length h ≡ 32
      → get server (to_hex h) ix' type' (index server o ix type s).1
        ≡ get server (to_hex h) ix' type' s
  unfolding get index
  get-index o ix type ix' type' h s l = rw (ok.post_get ix type ix' type' h o s l) refl
