-- ===== src/Errs/Laws.antt =====
-- The HTTP status of an error, by what `errors.Is` says of it.
use go_api_project_template.Prelude.{◌≡◌, arith, if◌then◌else◌}
use go_api_project_template.Errs.{Err, is, kind, handle_err, status_for}

-- `HandleErr` of response/error_mapper.go answers 422 to a validation error and else by the kind that
-- the error is, 500 if it is none. The order in which the kinds are tried does not matter: here they
-- are tried from last to first.
pub handle_err_eq :
    (e : Err)
    → handle_err e ≡ (
        if is e Err.validation
        then 422
        else if is e Err.forbidden
        then 403
        else if is e Err.unauthorized
        then 401
        else if is e Err.bad_request
        then 400
        else if is e Err.conflict
        then 409
        else if is e Err.not_found
        then 404
        else 500)
unfolding handle_err status_for kind
handle_err_eq e = ground arith
