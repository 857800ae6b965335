-- ===== src/Core/Buffer.antt =====
-- The request buffer of internal/core/proxy.go is an `orderedmap.OrderedMap` of a third party: an
-- interface with the documented laws of the three methods in use, and a dictionary that meets them.
use lspwatch.Common.{
  ℕ, ◌≡◌, refl, Bool, not, Option, none, some, [], if◌then◌else◌, is_some, Bytes, same,
}
use lspwatch.Common.Dict.{Dict, get, put, remove, get_empty, get-put, get-remove}

-- A request that waits for its response, `RequestBookmark`.
pub record RequestBookmark : Type 0 where
  pub request_time : ℕ
  pub method : Bytes

pub record OrderedMap : Type 1 where
  pub Map : Type 0
  pub empty : Map
  pub get_key : Bytes → Map → Option RequestBookmark
  -- `Set` returns whether the key is new.
  pub set_key : Bytes → RequestBookmark → Map → Map × Bool
  pub delete_key : Bytes → Map → Map × Bool
  pub get-empty : (k : Bytes) → get_key k empty ≡ none
  pub get-set :
      (k j : Bytes) (v : RequestBookmark) (m : Map)
      → get_key j (set_key k v m).0 ≡ (if same k j then some v else get_key j m)
  pub set_new :
      (k : Bytes) (v : RequestBookmark) (m : Map) → (set_key k v m).1 ≡ not (is_some (get_key k m))
  pub get-delete :
      (k j : Bytes) (m : Map)
      → get_key j (delete_key k m).0 ≡ (if same k j then none else get_key j m)

abbrev pub dict_buffer : OrderedMap
dict_buffer = record {
  Map = Dict RequestBookmark;
  empty = [];
  get_key = get;
  set_key = λ k v m. (put k v m, not (is_some (get k m)));
  delete_key = λ k m. (remove k m, is_some (get k m));
  get-empty = get_empty;
  get-set = get-put;
  set_new = λ k v m. refl;
  get-delete = get-remove;
}
