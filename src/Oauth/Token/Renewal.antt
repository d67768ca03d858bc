-- ===== src/Oauth/Token/Renewal.antt =====
-- The refresh token that src/oauth/token.ts issues is accepted until it expires.
use brain_mcp_server.Prelude.{Text, text_eq}
use brain_mcp_server.Prelude.Maps.{Map}
use brain_mcp_server.Oauth.{List}
use brain_mcp_server.Oauth.Grants.{OauthConfig, Library}
use brain_mcp_server.Oauth.Clients.{TokenState, Request}
use brain_mcp_server.Oauth.Token.{handle_token}
use brain_mcp_server.Access.{BrainRole, BrainPrincipal}
use brain_mcp_server.Oauth.Token.Grace.{run}

module _ (library : Library) (config : OauthConfig)
    (roles_for : BrainPrincipal → Map Text BrainRole) (brain_id : Text) where
  -- The state after a request and the requests that follow it.
  abbrev pub after : Request → List Request → TokenState → TokenState
  after first between s =
      run library config roles_for brain_id between
        (handle_token library config roles_for brain_id first s).1
