-- ===== src/Mcp/Refusals.antt =====
-- Which tools the plan of a caller who is no administrator opens.
