-- ===== src/Examples/Routing.antt =====
-- The theorems on the router and on the service manager, applied.
use moveon.Router.Uri.{member_uri, get_uri}
use moveon.Message.Layout.{exh_bytes, req}
use moveon.Base.Dict
use moveon.Base.{◌≡◌, refl, [], ◌∷◌, some, ok, undefined, codes, arith}
use moveon.Message.Parts.{Fits}
use moveon.Message.Carries.{delivered}
use moveon.Router.Laws.{get_uri-undefined}
use moveon.Service.Mgr.{get_service, commit, Call}
use moveon.Service.Laws.{commit-pack, answer}
use moveon.Pool.World.{new_world}
use moveon.Examples.Samples.{zeros, one_exh, first_opt, second_opt, sample, plain_json, chat}
use moveon.Examples.Messages.{sample-Fits}

no_options-Fits : Fits one_exh []
unfolding exh_bytes
no_options-Fits = record {
  exhs_fit = omega arith;
  opts_fit = omega arith;
  texts_fit = (omega arith, tt);
  total_fits = omega arith;
}

get_uri-undefined_example : get_uri plain_json (delivered zeros zeros one_exh [] req 5) ≡ undefined
get_uri-undefined_example =
    get_uri-undefined plain_json zeros zeros one_exh req 5 (omega arith) no_options-Fits

commit-pack_example :
    commit plain_json ((codes "/chat", chat) ∷ []) 77 sample (new_world Call)
    ≡ ok (answer 77 sample (new_world Call) (some chat))
unfolding member_uri get_service Dict.find
commit-pack_example =
    commit-pack plain_json ((codes "/chat", chat) ∷ []) zeros zeros one_exh first_opt
      (second_opt ∷ []) req 5 (omega arith) sample-Fits (codes "/chat") 77 (new_world Call) refl
