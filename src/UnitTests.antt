-- ===== src/UnitTests.antt =====
-- tests/test-admin.c: the test of the administrator's errors, test_invalid, on the provider that the set-up
-- has registered, over a transport that delivers.
pub mod Invalid
use cachercise.Base.{ℕ, String, Bool, true, Option, none, some, List, ◌==◌, if◌then◌else◌}
use cachercise.Base.Run.{Run, ok, ◌>>=◌, defined}
use cachercise.Common.{
  ReturnCode, success, err_from_mercury, err_invalid_token, err_invalid_config, err_invalid_backend,
  err_invalid_cache, CacheId, Ptr, to_int,
}
use cachercise.Table.{UtHash}
use cachercise.Messages.{CreateCacheIn, CreateCacheOut}
use cachercise.Dummy.Memory.{Heap}
use cachercise.Provider.{Cache, Provider}
use cachercise.Client.Calls.{Answer}
use cachercise.Admin.{Admin, admin_init, create_cache}
use cachercise.EndToEnd.Created.{served_create}
use cachercise.EndToEnd.Destroyed.{served_destroy}

abbrev pub valid_token : Option String
valid_token = some "ABCDEFGH"

abbrev pub wrong_token : Option String
wrong_token = some "HGFEDCBA"

abbrev pub backend_config : String
backend_config = "{ \"foo\" : \"bar\" }"

-- munit_assert_int(ret, ==, expected): the rest of the test, or `none` where the test fails.
unfoldable pub assert_int :
    {A : Type 0} → (ret expected : ReturnCode) → Run (Option A) → Run (Option A)
unfolding to_int
assert_int ret expected rest = if to_int ret == to_int expected then rest else ok none

module _ {T : Type 0} (hash : UtHash T (Cache Heap)) where
  -- What the server is left with, or `none` where an assertion fails. `memory` is what `calloc` gives,
  -- `uuid` and `unlucky` what the server generates, `out` what its handler finds on the stack. `elsewhere`
  -- is who answers under the next provider id.
  unfoldable pub test_invalid :
      (elsewhere : CreateCacheIn → Answer CreateCacheOut) (memory : Ptr) (registered : Option Admin)
      (new : Admin) (uuid unlucky : CacheId) (out : CreateCacheOut)
      → Provider Heap T
      → Heap
      → Run (Option (Provider Heap T × Heap))
  unfolding assert_int
  test_invalid elsewhere memory registered new uuid unlucky out p w = do
    let dummy = some "dummy"
    let (inited, admin) = admin_init memory registered new
    let (astray, _) = create_cache elsewhere valid_token dummy (some backend_config)
    assert_int inited success (
        assert_int astray err_from_mercury (do
          (ret₁, id₁, p₁, w₁) ←
              served_create hash true unlucky out p w wrong_token dummy (some backend_config)
          assert_int ret₁ err_invalid_token (do
            (ret₂, id₂, p₂, w₂) ←
                served_create hash true unlucky out p₁ w₁ valid_token dummy (some "{ashqw{")
            assert_int ret₂ err_invalid_config (do
              (ret₃, id₃, p₃, w₃) ←
                  served_create hash true unlucky out p₂ w₂ valid_token (some "blah")
                    (some backend_config)
              assert_int ret₃ err_invalid_backend (do
                (ret₄, id₄, p₄, w₄) ←
                    served_create hash true uuid out p₃ w₃ valid_token dummy (some backend_config)
                assert_int ret₄ success (do
                  (ret₅, p₅, w₅) ← served_destroy hash p₄ w₄ valid_token 0
                  assert_int ret₅ err_invalid_cache (do
                    id ← defined id₄
                    (ret₆, p₆, w₆) ← served_destroy hash p₅ w₅ valid_token id
                    assert_int ret₆ success (ok (some (p₆, w₆))))))))))
